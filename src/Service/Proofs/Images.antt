-- ===== src/Service/Proofs/Images.antt =====
-- Which sandbox images validateSandboxImage of internal/workspacesvc/service.go accepts.
use workspace_gateway.Base.{
  ℕ, Bool, true, false, not, [], ◌∷◌, ◌++◌, append_assoc, append-nil, Option, none, some, ◌≡◌, ◌⊎◌,
  inl, inr, refl, ap, subst, sym, ◌∙◌, arith, null, if◌then◌else◌, ◌==◌, Text, codes, text_eq,
  text_eq_iff, has_prefix, trim_prefix, trim_prefix-append, contains, ok, Bool-cases, Option-cases,
}
use workspace_gateway.Service.Access.{
  behind_scheme, cut, cut_last, is_host, no_scheme, split_host, drop_digest, drop_tag, image_parts,
  validate_sandbox_image,
}
use workspace_gateway.Service.Env.{Config}

-- Nothing, or a text up to `://`.
abbrev pub IsScheme : Text → Type 0
IsScheme s = (s ≡ []) ⊎ ((p : Text) × (s ≡ p ++ codes "://"))

-- Nothing, or what begins with one of the three characters that end a name.
abbrev pub IsTail : Text → Type 0
IsTail t = (t ≡ []) ⊎ ((c : ℕ) × (r : Text) × (t ≡ c ∷ r) × ((c ≡ b'/') ⊎ (c ≡ b':') ⊎ (c ≡ b'@')))

scheme_split :
    (s p : Text) → behind_scheme s ≡ some p → (pre : Text) × (pre ++ (codes "://" ++ p) ≡ s)
unfolding behind_scheme
scheme_split [] p h = cc
scheme_split (c ∷ s) p h = elim (Bool-cases (has_prefix (c ∷ s) (codes "://"))) [
  | inl e ↦
      let rest : trim_prefix (c ∷ s) (codes "://") ≡ p = ground (arith, e, h) in
      ([], ap (λ t. codes "://" ++ t) (sym rest) ∙ trim_prefix-append (c ∷ s) (codes "://") e)
  | inr e ↦ let (pre, q) = scheme_split s p (ground (arith, e, h)) in (c ∷ pre, ap (λ t. c ∷ t) q)
]

-- The parts, put together again.
abbrev uncut : ℕ → Text × Option Text → Text
uncut sep (a, none) = a
uncut sep (a, some b) = a ++ sep ∷ b

uncut_cons : (sep c : ℕ) (a : Text) (b : Option Text) → uncut sep (c ∷ a, b) ≡ c ∷ uncut sep (a, b)
uncut_cons sep c a none = refl
uncut_cons sep c a (some b) = refl

uncut-cut : (sep : ℕ) (s : Text) → uncut sep (cut sep s) ≡ s
unfolding cut
uncut-cut sep [] = refl
uncut-cut sep (c ∷ s) = elim (Bool-cases (c == sep)) [
  | inl e ↦ let same : c ≡ sep = ground arith in rw e (ap (λ x. x ∷ s) (sym same))
  | inr e ↦ rw e (uncut_cons sep c (cut sep s).0 (cut sep s).1 ∙ ap (λ t. c ∷ t) (uncut-cut sep s))
]

two_parts :
    {a b a' b' : Text}
    → ◌≡◌ {A = Option (Text × Text)} (some (a, b)) (some (a', b'))
    → (a ≡ a') × (b ≡ b')
two_parts h = (cc, cc)

cut_last_split :
    (sep : ℕ) (s a b : Text)
    → cut_last sep s ≡ some (a, b)
    → (r : Text) × (b ≡ sep ∷ r) × (a ++ sep ∷ r ≡ s)
unfolding cut_last
cut_last_split sep [] a b h = cc
cut_last_split sep (c ∷ s) a b h = elim (Option-cases (cut_last sep s)) [
  | inl e ↦ elim (Bool-cases (c == sep)) [
    | inl e' ↦
        let v : cut_last sep (c ∷ s) ≡ some ([], c ∷ s) = rw (e, e') refl in
        let (ea, eb) = two_parts (sym h ∙ v) in
        let same : c ≡ sep = ground arith in
        (s, eb ∙ ap (λ x. x ∷ s) same, ap (λ t. t ++ sep ∷ s) ea ∙ ap (λ x. x ∷ s) (sym same))
    | inr e' ↦ let v : cut_last sep (c ∷ s) ≡ none = rw (e, e') refl in absurd cc
  ]
  | inr ((a', b'), e) ↦
      let v : cut_last sep (c ∷ s) ≡ some (c ∷ a', b') = rw e refl in
      let (ea, eb) = two_parts (sym h ∙ v) in
      let (r, q, w) = cut_last_split sep s a' b' e in
      (r, eb ∙ q, ap (λ t. t ++ sep ∷ r) ea ∙ ap (λ t. c ∷ t) w)
]

-- What a text was before its tag, or its digest, was dropped.
abbrev Dropped : Text → Text → Type 0
Dropped kept whole = (tail : Text) × (kept ++ tail ≡ whole) × IsTail tail

nothing-Dropped : (s : Text) → Dropped s s
nothing-Dropped s = ([], append-nil s, inl refl)

digest-Dropped : (s : Text) → Dropped (drop_digest (cut_last b'@' s) s) s
digest-Dropped s = elim (Option-cases (cut_last b'@' s)) [
  | inl e ↦ rw e (nothing-Dropped s)
  | inr ((a, b), e) ↦
      let (r, q, w) = cut_last_split b'@' s a b e in
      subst (λ o. Dropped (drop_digest o s) s) (sym e)
        (b'@' ∷ r, w, inr (b'@', r, refl, inr (inr refl)))
]

tag-Dropped : (s : Text) → Dropped (drop_tag (cut_last b':' s) s) s
tag-Dropped s = elim (Option-cases (cut_last b':' s)) [
  | inl e ↦ rw e (nothing-Dropped s)
  | inr ((a, b), e) ↦
      let (r, q, w) = cut_last_split b':' s a b e in
      subst (λ o. Dropped (drop_tag o s) s) (sym e)
        (one_of a (contains b (codes "/")) (nothing-Dropped s)
          (b':' ∷ r, w, inr (b':', r, refl, inr (inl refl))))
]
  where
    one_of : (a : Text) (v : Bool) → Dropped s s → Dropped a s → Dropped (if not v then a else s) s
    one_of a true whole cut_ = whole
    one_of a false whole cut_ = cut_

-- The first segment is followed by nothing, or by a slash.
segment-Dropped : (s : Text) → Dropped (cut b'/' s).0 s
segment-Dropped s = parts (cut b'/' s) (uncut-cut b'/' s)
  where
    parts : (p : Text × Option Text) → uncut b'/' p ≡ s → Dropped p.0 s
    parts (a, none) e = ([], append-nil a ∙ e, inl refl)
    parts (a, some b) e = (b'/' ∷ b, e, inr (b'/', b, refl, inl refl))

-- What is dropped first and what is dropped last go together.
Dropped-twice : (a b c : Text) → Dropped a b → Dropped b c → Dropped a c
Dropped-twice a b c (t, e, it) (t', e', it') =
    (t ++ t', sym (append_assoc a t t') ∙ ap (λ x. x ++ t') e ∙ e', both t t' it it')
  where
    both : (t t' : Text) → IsTail t → IsTail t' → IsTail (t ++ t')
    both t t' (inl e) i = subst IsTail (ap (λ x. x ++ t') (sym e)) i
    both t t' (inr (c, r, e, i)) i' = inr (c, r ++ t', ap (λ x. x ++ t') e, i)

-- The host and the path behind it.
host_split :
    (path got rest : Text)
    → split_host (cut b'/' path) path ≡ (got, rest)
    → null got ≡ false
    → got ++ b'/' ∷ rest ≡ path
host_split path got rest h n = parts (cut b'/' path) (uncut-cut b'/' path) h
  where
    parts :
        (p : Text × Option Text)
        → uncut b'/' p ≡ path
        → split_host p path ≡ (got, rest)
        → got ++ b'/' ∷ rest ≡ path
    parts (a, none) e q = absurd (no_host (ap (λ x. x.0) q))
      where
        no_host : [] ≡ got → ⊥
        no_host q' = ground (arith, q', n)
    parts (a, some b) e q = elim (Bool-cases (is_host a)) [
      | inl t ↦
          let v : split_host (a, some b) path ≡ (a, b) = rw t refl in
          let w : ◌≡◌ {A = Text × Text} (got, rest) (a, b) = sym q ∙ v in
          ap (λ x. x ++ b'/' ∷ rest) (ap (λ x. x.0) w)
          ∙ ap (λ x. a ++ b'/' ∷ x) (ap (λ x. x.1) w)
          ∙ e
      | inr t ↦
          let v : split_host (a, some b) path ≡ ([], path) = rw t refl in
          let w : ◌≡◌ {A = Text × Text} (got, rest) ([], path) = sym q ∙ v in
          let empty_ : got ≡ [] = ap (λ x. x.0) w in absurd (ground (arith, empty_, n))
    ]

IsScheme-of :
    (image : Text)
    → (pre : Text) × (pre ++ no_scheme image (behind_scheme image) ≡ image) × IsScheme pre
IsScheme-of image = elim (Option-cases (behind_scheme image)) [
  | inl e ↦ ([], ap (no_scheme image) e, inl refl)
  | inr (p, e) ↦
      let (pre, w) = scheme_split image p e in
      (
        pre ++ codes "://",
        ap (λ o. (pre ++ codes "://") ++ no_scheme image o) e
            ∙ append_assoc pre (codes "://") p
            ∙ w,
        inr (pre, refl),
      )
]

-- The text of an image is made of its scheme, its host, its first segment and the rest.
abbrev pub IsImageOf : Text → Text → Text → Type 0
IsImageOf image host org =
    (scheme : Text) × (tail : Text) × (scheme ++ (host ++ b'/' ∷ (org ++ tail)) ≡ image)
    × IsScheme scheme
    × IsTail tail

parts_of_image :
    (image : Text)
    → null (image_parts image).0 ≡ false
    → IsImageOf image (image_parts image).0 (cut b'/' (image_parts image).1).0
unfolding image_parts
parts_of_image image n =
    let path = no_scheme image (behind_scheme image) in
    let (pre, e, i) = IsScheme-of image in
    let got = (split_host (cut b'/' path) path).0 in
    let rest = (split_host (cut b'/' path) path).1 in
    let undigested = drop_digest (cut_last b'@' rest) rest in
    let untagged = drop_tag (cut_last b':' undigested) undigested in
    let whole : got ++ b'/' ∷ rest ≡ path = host_split path got rest refl n in
    let (tail, w, it) =
      Dropped-twice (cut b'/' untagged).0 undigested rest
        (Dropped-twice (cut b'/' untagged).0 untagged undigested (segment-Dropped untagged)
          (tag-Dropped undigested))
        (digest-Dropped rest) in
    (pre, tail, ap (λ x. pre ++ (got ++ b'/' ∷ x)) w ∙ ap (λ x. pre ++ x) whole ∙ e, i, it)

-- Where both settings are made, an image that is accepted is, behind a scheme if any, the registry's
-- host, a slash and the organisation, and this ends there or at a slash, a colon or an at sign.
pub validate_sandbox_image_lem :
    (cfg : Config) (image : Text)
    → null cfg.sandbox_org ≡ false
    → null cfg.sandbox_image_registry_host ≡ false
    → validate_sandbox_image cfg image ≡ ok tt
    → IsImageOf image cfg.sandbox_image_registry_host cfg.sandbox_org
unfolding validate_sandbox_image
validate_sandbox_image_lem cfg image named nh h =
    let host : text_eq (image_parts image).0 cfg.sandbox_image_registry_host ≡ true =
      ground (arith, h) in
    let org : text_eq (cut b'/' (image_parts image).1).0 cfg.sandbox_org ≡ true =
      ground (arith, h) in
    let eh = (text_eq_iff _ _).0 host in
    let eo = (text_eq_iff _ _).0 org in
    subst (IsImageOf image cfg.sandbox_image_registry_host) eo (
      subst (λ x. IsImageOf image x (cut b'/' (image_parts image).1).0) eh
        (parts_of_image image (ap null eh ∙ nh)))
