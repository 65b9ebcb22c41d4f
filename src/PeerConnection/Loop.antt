-- ===== src/PeerConnection/Loop.antt =====
-- The loops of src/core/mosaic_connector.cpp over a map of handlers, for any body.
use mosaic_core.Base.{String, ◌≡◌, refl, ◌⊎◌, inl, some, [], ◌∷◌, arith, eq_iff}
use mosaic_core.Base.Dict.{Dict, lookup, insert, lookup-insert}
use mosaic_core.Exec.{ok, ◌>>=◌}
use mosaic_core.Exec.Keeps.{Keeps, Keeps-pure, Keeps-bind}
use mosaic_core.Exec.Safe.{Safe, Safe-pure, Safe-bind}
use mosaic_core.Env.{Env}
use mosaic_core.System.{System, Action}
use mosaic_core.PeerConnection.Tracks.{for_each}

module _ {ℓ κ} (env : Env) {H : Type ℓ} (P : Dict H → System env → Type κ)
    (body : String → H → Action env Unit)
    (step : (k : String) (h : H) (r : Dict H) (s : System env)
      → P ((k, h) ∷ r) s
      → ((body k h s).0 ≡ ok tt) × P r (body k h s).1) where
  pub for_each_inv :
      (d : Dict H) (s : System env)
      → P d s
      → ((for_each env d body s).0 ≡ ok tt) × P [] (for_each env d body s).1
  unfolding for_each ◌>>=◌
  for_each_inv [] s p = (refl, p)
  for_each_inv ((k, h) ∷ r) s p = ground (arith, step k h r s p, for_each_inv r (body k h s).1)

-- What each round keeps, the loop keeps, also when a round throws.
pub Keeps-for_each {ℓ} :
    (env : Env) {H : Type ℓ} {P : System env → Type 0} (body : String → H → Action env Unit)
    → ((k : String) (h : H) → Keeps P (body k h))
    → (d : Dict H) → Keeps P (for_each env d body)
unfolding for_each
Keeps-for_each env body each [] = Keeps-pure tt
Keeps-for_each env body each ((k, h) ∷ r) =
    Keeps-bind (body k h) (λ _. for_each env r body) (each k h)
      (λ _. Keeps-for_each env body each r)

pub Safe-for_each :
    (env : Env) {H : Type 0} {P : System env → Type 0} (body : String → H → Action env Unit)
    → ((k : String) (h : H) → Safe P (body k h))
    → (d : Dict H) → Safe P (for_each env d body)
unfolding for_each
Safe-for_each env body each [] = Safe-pure tt
Safe-for_each env body each ((k, h) ∷ r) =
    Safe-bind (body k h) (λ _. for_each env r body) (each k h) (λ _. Safe-for_each env body each r)

module _ {ℓ κ} {H : Type ℓ} (IsDone : H → Type κ) where
  abbrev pub HasKey : String → Dict H → Type 0
  HasKey k [] = ⊥
  HasKey k ((j, h) ∷ r) = (j ≡ k) ⊎ HasKey k r

  -- What the loop has not yet reached is still in the list `r`.
  pub record Done (r d : Dict H) : Type (ℓ ⊔ κ) where
    pub at : (k : String) (h : H) → lookup k d ≡ some h → HasKey k r ⊎ IsDone h

  lookup-HasKey : (d : Dict H) (k : String) (h : H) → lookup k d ≡ some h → HasKey k d
  unfolding lookup
  lookup-HasKey [] k h e = cc
  lookup-HasKey ((j, g) ∷ d) k h e = ground (arith, eq_iff j k, lookup-HasKey d k h)

  pub Done-start : (d : Dict H) → Done d d
  Done-start d = record { at = λ k h e. inl (lookup-HasKey d k h e) }

  pub Done-insert :
      (k : String) (h h' : H) (r d : Dict H)
      → IsDone h'
      → Done ((k, h) ∷ r) d
      → Done r (insert k h' d)
  Done-insert k h h' r d done p = record {
    at = λ j g e. ground (arith, lookup-insert k j h' d, eq_iff k j, p.at j g, done);
  }

  -- Every handler of the map.
  pub record Every (d : Dict H) : Type (ℓ ⊔ κ) where
    pub at : (k : String) (h : H) → lookup k d ≡ some h → IsDone h
