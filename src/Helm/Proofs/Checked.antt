-- ===== src/Helm/Proofs/Checked.antt =====
-- What the checks of `validate` of internal/helmmgr/helmmgr.go let pass.
use workspace_gateway.Base.{
  Bool, true, false, not, ◌≡◌, ◌⊎◌, inl, inr, refl, ap, if◌then◌else◌, any, null, Text, text_eq,
  Result, ok, err, ◌>>=◌, ◌&&◌,
}
use workspace_gateway.Helm.Api.{Object, HelmError, Engine}
use workspace_gateway.Helm.Manifest.{
  allowed_kinds, forbid_dangerous, is_cluster_scoped, check_object,
}

module _ {A : Type 0} where
  passed_test :
      (b : Bool) (e : HelmError) (k : Result HelmError A) (a : A)
      → (if b then err e else k) ≡ ok a
      → (b ≡ false) × (k ≡ ok a)
  passed_test true e k a h = absurd cc
  passed_test false e k a h = (refl, h)

  passed_unit : (r : Result HelmError (Unit {0})) (a b : A) → (r >>= λ _. ok a) ≡ ok b → r ≡ ok tt
  passed_unit (ok tt) a b h = refl
  passed_unit (err e) a b h = absurd cc

  pub if_true : (b : Bool) (x y : A) {z : A} → b ≡ true → (if b then x else y) ≡ z → x ≡ z
  if_true true x y e h = h
  if_true false x y e h = absurd cc

  pub if_false : (b : Bool) (x y : A) {z : A} → b ≡ false → (if b then x else y) ≡ z → y ≡ z
  if_false true x y e h = absurd cc
  if_false false x y e h = h

pub bound_ok :
    {A B : Type 0} (r : Result HelmError A) (f : A → Result HelmError B) (b : B)
    → (r >>= f) ≡ ok b
    → (a : A) × (r ≡ ok a) × (f a ≡ ok b)
bound_ok (ok a) f b h = (a, refl, h)
bound_ok (err e) f b h = absurd cc

abbrev value_or : {A : Type 0} → A → Result HelmError A → A
value_or x (ok a) = a
value_or x (err e) = x

pub ok_inj : {A : Type 0} (a b : A) → Path (Result HelmError A) (ok a) (ok b) → a ≡ b
ok_inj a b h = ap (λ r. value_or a r) h

not-false : (b : Bool) → not b ≡ false → b ≡ true
not-false true h = refl
not-false false h = absurd cc

own_namespace : (empty own : Bool) → (not empty && not own) ≡ false → (empty ≡ true) ⊎ (own ≡ true)
own_namespace true own h = inl refl
own_namespace false true h = inr refl
own_namespace false false h = absurd cc

module _ {S Doc : Type 0} (engine : Engine S Doc) (namespace : Text) where
  -- A rendered document that may be applied: its kind is on the list, it names no other namespace,
  -- its kind is not known as cluster-scoped, and nothing dangerous is found in it.
  pub record IsAllowed (u : Doc) : Type 0 where
    pub kind_listed : any (text_eq (engine.kind_of u)) allowed_kinds ≡ true
    pub no_other_namespace :
        (null (engine.namespace_of u) ≡ true) ⊎ (text_eq (engine.namespace_of u) namespace ≡ true)
    pub namespaced : is_cluster_scoped engine u ≡ false
    pub harmless : forbid_dangerous engine u ≡ ok tt

  pub check_object_sound :
      (u : Doc) (o : Object) → check_object engine namespace u ≡ ok o → IsAllowed u
  unfolding check_object
  check_object_sound u o h =
      let (listed, h1) = passed_test _ _ _ o h in
      let (own, h2) = passed_test _ _ _ o h1 in
      let (scope, h3) = passed_test _ _ _ o h2 in
      record {
        kind_listed = not-false _ listed;
        no_other_namespace = own_namespace _ _ own;
        namespaced = scope;
        harmless = passed_unit _ _ o h3;
      }
