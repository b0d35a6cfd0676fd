-- ===== src/Network/Conflict/Domains.antt =====
-- Two domain suffixes overlap exactly when some name lies under both of them.
use openfortivpn.Base.{
  ◌≡◌, refl, ◌⊎◌, inl, inr, ◌↔◌, true, ◌||◌, [], ◌∷◌, ◌++◌, arith, ap, sym, ◌∙◌, Bool-cases, ◌==◌,
}
use openfortivpn.Base.Text.{Str, str_beq, str_beq_iff, ends_with, str_equality}
use openfortivpn.Network.Conflict.{domain_overlaps}

-- The name is the domain, or ends with a dot and the domain.
abbrev pub LiesUnder : Str → Str → Type 0
LiesUnder domain name = (name ≡ domain) ⊎ ((host : Str) × (name ≡ host ++ b'.' ∷ domain))

ends_with-append : (p s : Str) → ends_with (p ++ s) s ≡ true
unfolding ends_with str_beq
ends_with-append [] [] = refl
ends_with-append [] (c ∷ s) = ground (arith, (str_beq_iff (c ∷ s) (c ∷ s)).1 refl)
ends_with-append (c ∷ p) s = ground (arith, ends_with-append p s)

ends_with_sound : (s p : Str) → ends_with s p ≡ true → (q : Str) × (s ≡ q ++ p)
unfolding ends_with
ends_with_sound [] p h = ([], (str_beq_iff [] p).0 h)
ends_with_sound (c ∷ s) p h = elim (Bool-cases (str_beq (c ∷ s) p)) [
  | inl all ↦ ([], (str_beq_iff (c ∷ s) p).0 all)
  | inr not_all ↦
      let (q, e) = ends_with_sound s p (ground (arith, h, not_all)) in
      (c ∷ q, ap (λ (t : Str). c ∷ t) e)
]

-- Of two endings of one text, one ends with the other.
two_endings :
    (p q x y : Str) → p ++ x ≡ q ++ y → ((r : Str) × (x ≡ r ++ y)) ⊎ ((r : Str) × (y ≡ r ++ x))
two_endings [] q x y e = inl (q, e)
two_endings (a ∷ p) [] x y e = inr (a ∷ p, sym e)
two_endings (a ∷ p) (b ∷ q) x y e = two_endings p q x y (cc)

-- An ending that begins with the dot is a whole domain, or is the same.
dotted_ending : (a b r : Str) → b'.' ∷ a ≡ r ++ b'.' ∷ b → (a == b) || ends_with a (b'.' ∷ b) ≡ true
dotted_ending a b [] e = let same : a ≡ b = cc in ground (arith, (str_beq_iff a b).1 same)
dotted_ending a b (c ∷ r) e =
    let tail : a ≡ r ++ b'.' ∷ b = cc in rw tail (ground (arith, ends_with-append r (b'.' ∷ b)))

overlap_witness :
    (a b : Str) → domain_overlaps a b ≡ true → (name : Str) × LiesUnder a name × LiesUnder b name
unfolding domain_overlaps
overlap_witness a b h = elim (Bool-cases (a == b)) [
  | inl same ↦ (a, inl refl, inl ((str_beq_iff a b).0 same))
  | inr apart ↦ elim (Bool-cases (ends_with a (b'.' ∷ b))) [
    | inl below ↦ (a, inl refl, inr (ends_with_sound a (b'.' ∷ b) below))
    | inr beside ↦
        let above : ends_with b (b'.' ∷ a) ≡ true = ground (arith, h, apart, beside) in
        (b, inr (ends_with_sound b (b'.' ∷ a) above), inl refl)
  ]
]

witness_overlaps :
    (a b name : Str) → LiesUnder a name → LiesUnder b name → domain_overlaps a b ≡ true
unfolding domain_overlaps
witness_overlaps a b name (inl e) (inl f) = ground (arith, (str_beq_iff a b).1 (sym e ∙ f))
witness_overlaps a b name (inl e) (inr (host, f)) =
    let below : ends_with a (b'.' ∷ b) ≡ true = rw (sym e ∙ f) (ends_with-append host (b'.' ∷ b)) in
    ground (arith, below)
witness_overlaps a b name (inr (host, e)) (inl f) =
    let above : ends_with b (b'.' ∷ a) ≡ true = rw (sym f ∙ e) (ends_with-append host (b'.' ∷ a)) in
    ground (arith, above)
witness_overlaps a b name (inr (g, e)) (inr (h, f)) =
    elim (two_endings g h (b'.' ∷ a) (b'.' ∷ b) (sym e ∙ f)) [
      | inl (r, k) ↦ ground (arith, dotted_ending a b r k)
      | inr (r, k) ↦ ground (arith, dotted_ending b a r k, str_beq_iff a b, str_beq_iff b a)
    ]

-- `domain_overlaps` answers true exactly when some name lies under both domains.
pub domain_overlaps_iff :
    (a b : Str)
    → (domain_overlaps a b ≡ true) ↔ ((name : Str) × LiesUnder a name × LiesUnder b name)
domain_overlaps_iff a b = (overlap_witness a b, λ s. witness_overlaps a b s.0 s.1 s.2)
