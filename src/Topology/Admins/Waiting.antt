-- ===== src/Topology/Admins/Waiting.antt =====
-- The loop over the requests that wait for an export ends within its fuel.
use node_wiring_secure.Base.{
  ℕ, zero, suc, ◌+◌, ◌≤◌, Bool, true, false, List, [], ◌∷◌, ◌++◌, none, some, length, length-append,
  if◌then◌else◌, ◌≡◌, refl, ap, ◌∙◌, arith,
}
use node_wiring_secure.Celix.{Properties, Status, is_success}
use node_wiring_secure.Topology.World.{Admin, World, Outside, M, ◌>>=◌}
use node_wiring_secure.Topology.Export.{admin_export}
use node_wiring_secure.Topology.Admins.{export_waiting}

-- Steps that go on alike are alike.
bind_cong {ℓ κ} :
    {A : Type ℓ} {B : Type κ} (m : M A) (f g : A → M B) (w : World)
    → ((a : A) (v : World) → f a v ≡ g a v)
    → (m >>= f) w ≡ (m >>= g) w
bind_cong m f g w h =
    elim (m w)
      as (λ r.
        elim r [ none ↦ none | some (a, v) ↦ f a v ]
        ≡ elim r [ none ↦ none | some (a, v) ↦ g a v ]) [ none ↦ refl | some (a, v) ↦ h a v ]

if_cong {ℓ} :
    {B : Type ℓ} (b : Bool) (m n m' n' : M B) (w : World)
    → m w ≡ m' w
    → n w ≡ n' w
    → (if b then m else n) w ≡ (if b then m' else n') w
if_cong true m n m' n' w h k = h
if_cong false m n m' n' w h k = k

export_waiting-suc :
    (o : Outside) (a : Admin) (fuel : ℕ) (before rest : List Properties) (status : Status)
    (w : World)
    → length before + length rest ≤ fuel
    → export_waiting o a (suc fuel) before rest status w
      ≡ export_waiting o a fuel before rest status w
unfolding export_waiting
export_waiting-suc o a fuel before [] status w enough = refl
export_waiting-suc o a zero before (p ∷ rest) status w enough = absurd (omega (arith, enough))
export_waiting-suc o a (suc fuel) before (p ∷ rest) status w enough =
    bind_cong (admin_export o a p) _ _ w (λ (now, e) v.
      if_cong (is_success now) _ _ _ _ v
        (export_waiting-suc o a fuel [] (before ++ rest) now _
          (omega (arith, enough, length-append before rest)))
        (export_waiting-suc o a (suc fuel) (before ++ (p ∷ [])) rest now v
          (omega (arith, enough, length-append before (p ∷ [])))))

-- More fuel than requests changes nothing: the loop has come to its own end.
pub export_waiting-enough :
    (o : Outside) (a : Admin) (more : ℕ) (waiting : List Properties) (status : Status) (w : World)
    → export_waiting o a (more + length waiting) [] waiting status w
      ≡ export_waiting o a (length waiting) [] waiting status w
export_waiting-enough o a zero waiting status w =
    ap (λ n. export_waiting o a n [] waiting status w) (omega arith)
export_waiting-enough o a (suc more) waiting status w =
    ap (λ n. export_waiting o a n [] waiting status w) (omega arith)
    ∙ export_waiting-suc o a (more + length waiting) [] waiting status w (omega arith)
    ∙ export_waiting-enough o a more waiting status w
