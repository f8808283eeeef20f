-- ===== src/Topology/Matching/Meaning.antt =====
-- What the comparisons of properties decide.
use mathlib.Core.Bool.{true≢false}
use node_wiring_secure.Base.{
  ℕ, Bool, true, CString, same_text, same_text_iff, same_text_refl, codes, false, sym, ◌∙◌, inl,
  inr, List, [], ◌∷◌, none, some, if◌then◌else◌, ==_iff, ◌≡◌, refl, ◌↔◌, ◌⊎◌, ◌||◌, All, arith,
}
use node_wiring_secure.Celix.{Properties}
use node_wiring_secure.Celix.HashMap.{lookup, insert}
use node_wiring_secure.Endpoint.{get, set}
use node_wiring_secure.Topology.World.{Outside}
use node_wiring_secure.Topology.Matching.{
  is_ignored, is_service_key, exported_interfaces_key, requested_service_key, type_key, has_value,
  properties_match, srvc_properties_equals, hash_pairs, mix, srvc_properties_hash, same_service,
}

-- The keys that the comparison does not consider: what depends on the framework and the registration,
-- and what a request is marked with.
abbrev pub left_out : Outside → List CString
left_out o =
    o.framework_uuid_key
    ∷ o.service_id_key
    ∷ o.object_class_key
    ∷ codes "service.exported.interfaces"
    ∷ codes "requested.service"
    ∷ codes "type"
    ∷ []

abbrev pub IsOneOf : CString → List CString → Type 0
IsOneOf k [] = ⊥
IsOneOf k (x ∷ xs) = (k ≡ x) ⊎ IsOneOf k xs

abbrev any_same : CString → List CString → Bool
any_same k [] = false
any_same k (x ∷ xs) = same_text k x || any_same k xs

any_same_iff : (k : CString) (xs : List CString) → (any_same k xs ≡ true) ↔ IsOneOf k xs
any_same_iff k [] = ((λ h. true≢false (sym h)), (λ h. absurd h))
any_same_iff k (x ∷ xs) = ground (arith, same_text_iff k x, any_same_iff k xs)

is_ignored_lem : (o : Outside) (k : CString) → is_ignored o k ≡ any_same k (left_out o)
unfolding is_ignored is_service_key exported_interfaces_key requested_service_key type_key
is_ignored_lem o k = ground arith

pair_iff :
    (b : Bool) (reference : Properties) (k v : CString)
    → ((b || has_value v (get reference k)) ≡ true) ↔ ((b ≡ true) ⊎ (get reference k ≡ some v))
unfolding has_value
pair_iff b reference k v =
    elim (get reference k) as (λ r. ((b || has_value v r) ≡ true) ↔ ((b ≡ true) ⊎ (r ≡ some v))) [
      | none ↦ ground arith
      | some r ↦ ground (arith, same_text_iff r v)
    ]

-- Properties match a reference exactly if each of their pairs stands in the reference with the same
-- value, or has one of these keys: that of the framework's uuid, of the service's id or of its
-- classes, "service.exported.interfaces", "requested.service" and "type".
pub properties_match_iff :
    (o : Outside) (p reference : Properties)
    → (properties_match o p reference ≡ true)
      ↔ All (λ (k, v). IsOneOf k (left_out o) ⊎ (get reference k ≡ some v)) p
unfolding properties_match
properties_match_iff o [] reference = ((λ h. tt), (λ h. refl))
properties_match_iff o ((k, v) ∷ p) reference =
    let here = pair_iff (is_ignored o k) reference k v in
    let there = properties_match_iff o p reference in
    let skips = any_same_iff k (left_out o) in
    let same = is_ignored_lem o k in
    (
      (λ h. (
        elim (here.0 (ground arith)) [
          | inl skip ↦ inl (skips.0 (sym same ∙ skip))
          | inr stands ↦ inr stands
        ],
        there.0 (ground arith),
      )),
      (λ h. ground (
        arith,
        here.1 (elim h.0 [ inl one ↦ inl (same ∙ skips.1 one) | inr stands ↦ inr stands ]),
        there.1 h.1,
      )),
    )

-- Every key stands once.
abbrev pub UniqueKeys : Properties → Type 0
UniqueKeys [] = Unit
UniqueKeys ((k, v) ∷ p) = (get p k ≡ none) × UniqueKeys p

-- The pairs of `q` stand in `p`.
abbrev Agrees : Properties → Properties → Type 0
Agrees p [] = Unit
Agrees p ((k, v) ∷ q) = (get p k ≡ some v) × Agrees p q

get-cons :
    (k v j : CString) (p : Properties)
    → get ((k, v) ∷ p) j ≡ (if same_text j k then some v else get p j)
unfolding get lookup
get-cons k v j p = refl

Agrees-cons :
    (k v : CString) (p q : Properties) → get q k ≡ none → Agrees p q → Agrees ((k, v) ∷ p) q
Agrees-cons k v p [] h a = tt
Agrees-cons k v p ((j, u) ∷ q) h a = (
  ground (arith, get-cons k v j p, get-cons j u k q, same_text_iff j k, same_text_iff k j, a.0),
  Agrees-cons k v p q (ground (arith, get-cons j u k q)) a.1,
)

Agrees-refl : (p : Properties) → UniqueKeys p → Agrees p p
Agrees-refl [] h = tt
Agrees-refl ((k, v) ∷ p) h = (
  ground (arith, get-cons k v k p, same_text_refl k),
  Agrees-cons k v p p h.0 (Agrees-refl p h.1),
)

-- Pairs that stand in the reference pass the key test.
srvc_properties_equals-Agrees :
    (o : Outside) (reference p : Properties)
    → Agrees reference p
    → srvc_properties_equals o p reference ≡ true
unfolding srvc_properties_equals has_value
srvc_properties_equals-Agrees o reference [] a = refl
srvc_properties_equals-Agrees o reference ((k, v) ∷ p) a =
    ground (arith, a.0, same_text_refl v, srvc_properties_equals-Agrees o reference p a.1)

srvc_properties_equals-set :
    (o : Outside) (p reference : Properties) (k v : CString)
    → is_service_key o k ≡ true
    → srvc_properties_equals o (set p k v) reference ≡ srvc_properties_equals o p reference
unfolding srvc_properties_equals set insert
srvc_properties_equals-set o [] reference k v s = ground arith
srvc_properties_equals-set o ((j, u) ∷ p) reference k v s =
    ground (arith, same_text_iff k j, srvc_properties_equals-set o p reference k v s)

mix_skip : (o : Outside) (h : ℕ) (k v : CString) → is_service_key o k ≡ true → mix o h k v ≡ h
unfolding mix
mix_skip o h k v s = rw s

hash_pairs-cons :
    (o : Outside) (h : ℕ) (k v : CString) (p : Properties)
    → hash_pairs o h ((k, v) ∷ p) ≡ hash_pairs o (mix o h k v) p
unfolding hash_pairs
hash_pairs-cons o h k v p = refl

set-cons :
    (k v j u : CString) (p : Properties)
    → set ((j, u) ∷ p) k v ≡ (if same_text k j then (j, v) ∷ p else (j, u) ∷ set p k v)
unfolding set insert
set-cons k v j u p = refl

hash_pairs-set :
    (o : Outside) (h : ℕ) (p : Properties) (k v : CString)
    → is_service_key o k ≡ true
    → hash_pairs o h (set p k v) ≡ hash_pairs o h p
hash_pairs-set o h [] k v s = unfold hash_pairs set insert in mix_skip o h k v s
hash_pairs-set o h ((j, u) ∷ p) k v s = ground (
  arith,
  set-cons k v j u p,
  same_text_iff k j,
  hash_pairs-cons o h j v p,
  hash_pairs-cons o h j u p,
  hash_pairs-cons o h j u (set p k v),
  mix_skip o h j v,
  mix_skip o h j u,
  hash_pairs-set o (mix o h j u) p k v s,
)

same_service_self :
    (o : Outside) (p q : Properties)
    → srvc_properties_hash o p ≡ srvc_properties_hash o q
    → srvc_properties_equals o p q ≡ true
    → same_service o p q ≡ true
unfolding same_service
same_service_self o p q h e =
    ground (arith, ==_iff (srvc_properties_hash o p) (srvc_properties_hash o q))

pub same_service_refl : (o : Outside) (p : Properties) → UniqueKeys p → same_service o p p ≡ true
same_service_refl o p u =
    same_service_self o p p refl (srvc_properties_equals-Agrees o p p (Agrees-refl p u))

-- To set a service property on a service, its service.id for one, does not change which service it
-- is taken for in the map of exported services.
pub same_service-set :
    (o : Outside) (p reference : Properties) (k v : CString)
    → is_service_key o k ≡ true
    → same_service o (set p k v) reference ≡ same_service o p reference
unfolding same_service srvc_properties_hash
same_service-set o p reference k v s =
    rw (hash_pairs-set o 1216721012 p k v s, srvc_properties_equals-set o p reference k v s)
