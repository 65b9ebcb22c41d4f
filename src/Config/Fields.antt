-- ===== src/Config/Fields.antt =====
-- src/config_reader/yaml_config_reader.cpp: what it reads at one key.
use mosaic_core.Base.{
  String, ◌≡◌, refl, inl, inr, ◌↔◌, true, List, [], ◌∷◌, arith, if◌then◌else◌, Bool-cases,
}
use mosaic_core.Exec.{Outcome, ok, throws, fault}
use mosaic_core.Exec.Fallible.{◌>>=◌, traverse}
use mosaic_core.Config.{Params}
use mosaic_core.Config.Reader.{Yaml, required, text_field, parse_param, insert_all, parse_params}
use mosaic_core.Config.Represents.{Each, IsText, TextAt, IsParam, ParamsAt}

pub bind_ok :
    {A B : Type 0} (o : Outcome A) (f : A → Outcome B) (b : B)
    → (o >>= f) ≡ ok b
    → (a : A) × (o ≡ ok a) × (f a ≡ ok b)
bind_ok (ok a) f b h = (a, refl, h)
bind_ok (throws e) f b h = cc
bind_ok fault f b h = cc

module _ {A B : Type 0} (f : A → Outcome B) (R : A → B → Type 0)
    (each : (a : A) (b : B) → (f a ≡ ok b) ↔ R a b) where
  traverse-Each : (list : List A) (bs : List B) → traverse f list ≡ ok bs → Each R list bs
  unfolding traverse
  traverse-Each [] [] h = tt
  traverse-Each [] (b ∷ bs) h = cc
  traverse-Each (a ∷ rest) [] h =
      let (b, e, h₁) = bind_ok (f a) (λ b. traverse f rest >>= λ bs. ok (b ∷ bs)) [] h in
      let (bs', e', h₂) = bind_ok (traverse f rest) (λ bs. ok (b ∷ bs)) [] h₁ in cc
  traverse-Each (a ∷ rest) (b ∷ bs) h =
      let (b', e, h₁) = bind_ok (f a) (λ b. traverse f rest >>= λ bs. ok (b ∷ bs)) (b ∷ bs) h in
      let (bs', e', h₂) = bind_ok (traverse f rest) (λ bs. ok (b' ∷ bs)) (b ∷ bs) h₁ in
      ((each a b).0 (ground arith), traverse-Each rest bs (ground arith))

  Each-traverse : (list : List A) (bs : List B) → Each R list bs → traverse f list ≡ ok bs
  unfolding traverse
  Each-traverse [] [] r = refl
  Each-traverse [] (b ∷ bs) r = elim r [ ]
  Each-traverse (a ∷ rest) [] r = elim r [ ]
  Each-traverse (a ∷ rest) (b ∷ bs) r = ground (arith, (each a b).1 r.0, Each-traverse rest bs r.1)

  pub traverse_iff : (list : List A) (bs : List B) → (traverse f list ≡ ok bs) ↔ Each R list bs
  traverse_iff list bs = (traverse-Each list bs, Each-traverse list bs)

module _ (yaml : Yaml) where
  open yaml use {Node}

  pub required_ok :
      (node : Node) (key e : String) (v : Node)
      → required yaml node key e ≡ ok v
      → (yaml.get node key ≡ ok v) × (yaml.is_defined v ≡ true)
  unfolding required
  required_ok node key e v h =
      let (w, got, here) =
        bind_ok (yaml.get node key) (λ w. if yaml.is_defined w then ok w else throws e) v h in
      ground arith

  pub required-ok :
      (node : Node) (key e : String) (v : Node)
      → yaml.get node key ≡ ok v
      → yaml.is_defined v ≡ true
      → required yaml node key e ≡ ok v
  unfolding required
  required-ok node key e v got here = ground arith

  pub text_field_iff :
      (node : Node) (key e s : String)
      → (text_field yaml node key e ≡ ok s) ↔ TextAt yaml node key s
  unfolding text_field
  text_field_iff node key e s = (
    λ h.
        let (v, found, h₁) = bind_ok (required yaml node key e) yaml.as_string s h in
        let (got, here) = required_ok node key e v found in (v, got, here, h₁),
    λ (v, got, here, r). ground (arith, required-ok node key e v got here),
  )

  pub texts_iff :
      (nodes : List Node) (texts : List String)
      → (traverse yaml.as_string nodes ≡ ok texts) ↔ Each (IsText yaml) nodes texts
  texts_iff = traverse_iff yaml.as_string (IsText yaml) (λ v s. (λ x. x, λ x. x))

  parse_param_iff :
      (f : Node × Node) (p : String × String) → (parse_param yaml f ≡ ok p) ↔ IsParam yaml f p
  unfolding parse_param
  parse_param_iff (k, v) (key, value) = (
    λ h.
        let (t, e, h₁) =
          bind_ok (yaml.as_string v) (λ t. yaml.as_string k >>= λ u. ok (u, t)) (key, value) h in
        let (u, e', h₂) = bind_ok (yaml.as_string k) (λ u. ok (u, t)) (key, value) h₁ in
        (ground arith, ground arith),
    λ r. ground arith,
  )

  given_params :
      (v : Node) (params : Params)
      → (traverse (parse_param yaml) (yaml.fields v) >>= λ ps. ok (insert_all ps [])) ≡ ok params
      → (ps : List (String × String)) × Each (IsParam yaml) (yaml.fields v) ps
        × (params ≡ insert_all ps [])
  given_params v params h =
      let (ps, e, h₁) =
        bind_ok (traverse (parse_param yaml) (yaml.fields v)) (λ ps. ok (insert_all ps [])) params
          h in
      (
        ps,
        (traverse_iff (parse_param yaml) (IsParam yaml) parse_param_iff (yaml.fields v) ps).0 e,
        ground arith,
      )

  pub parse_params_iff :
      (node : Node) (params : Params)
      → (parse_params yaml node ≡ ok params) ↔ ParamsAt yaml node params
  unfolding parse_params
  parse_params_iff node params = (
    λ h.
        let (v, got, h₁) = bind_ok (yaml.get node "params") _ params h in
        elim (Bool-cases (yaml.is_defined v)) [
          | inl here ↦ (v, got, inr (here, given_params v params (ground arith)))
          | inr missing ↦ (v, got, inl (missing, ground arith))
        ],
    λ (v, got, either). elim either [
      | inl no_params ↦ ground (arith, no_params)
      | inr some_params ↦
          let (here, given) = some_params in
          let (ps, each, e) = given in
          ground (
            arith,
            (traverse_iff (parse_param yaml) (IsParam yaml) parse_param_iff (yaml.fields v) ps).1
                each,
          )
    ],
  )
