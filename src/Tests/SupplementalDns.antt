-- ===== src/Tests/SupplementalDns.antt =====
-- A dynamic store that is a function of the key.
use openfortivpn.Base.{
  ◌≡◌, inl, refl, true, [], ◌∷◌, Option, none, some, ◌==◌, arith, if◌then◌else◌,
}
use openfortivpn.Base.Text.{Str, str_equality, lit, str_beq}
use openfortivpn.Network.Model.{Resource}
use openfortivpn.Network.SupplementalDns.{CfValue, cf_other, DynamicStore, equals}
use openfortivpn.Network.SupplementalDns.Calls.{supplemental_dns}
use openfortivpn.Network.SupplementalDns.Foreign.{IsLawful, foreign_dns_stays}

abbrev Contents : Type 0
Contents = Str → Option CfValue

abbrev put : Str → Option CfValue → Contents → Contents
put i x w = λ k. if i == k then x else w k

abbrev contents_store : DynamicStore Contents
contents_store = record {
  copy_value = λ k w. (w k, w);
  last_error = λ w. 1004;
  set_value = λ k x w. (true, put k (some x) w);
  remove_value = λ k w. (true, put k none w);
  name_to_index = λ name w. 7;
}

abbrev Holds : Str → CfValue → Contents → Type 0
Holds k v w = w k ≡ some v

contents_store-IsLawful : IsLawful contents_store Holds
contents_store-IsLawful = record {
  copying = λ k v w h. inl h;
  copy_keeps = λ i k v w h. h;
  setting = λ i k x v w apart h. ground (arith, apart, h);
  removing = λ i k v w apart h. ground (arith, apart, h);
}

abbrev scoped : Resource
scoped = Resource.dns (record {
  interface = lit "ppp0";
  servers = 3221225985 ∷ [];
  domains = lit "corp.example" ∷ [];
})

abbrev our_key : Str
our_key = lit "State:/Network/Service/openfortivpn-manager-7/DNS"

-- Another program has written a value of another type under our key.
abbrev taken : Contents
taken = put our_key (some cf_other) (λ k. none)

foreign_dns_stays_example :
    let backend =
      supplemental_dns contents_store
        (λ dns index. some [])
        (λ text. text)
        (λ index. lit "7")
        ((lit "ppp0", 7) ∷ []) in
    Holds our_key cf_other (backend.inspect scoped taken).1
    × Holds our_key cf_other (backend.apply scoped taken).1
    × Holds our_key cf_other (backend.remove scoped (lit "x") taken).1
unfolding str_beq lit equals
foreign_dns_stays_example =
    foreign_dns_stays contents_store (λ dns index. some []) (λ text. text) (λ index. lit "7")
      ((lit "ppp0", 7) ∷ []) Holds contents_store-IsLawful our_key cf_other (λ d. refl) scoped
      (lit "x") taken refl
