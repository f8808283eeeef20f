-- ===== src/RemoteServiceAdmin/Requests/Calls.antt =====
-- A remote call from one framework to another: what is sent over a wire is received at its other end.
use mathlib.Core.List.{Memᴰ}
use node_wiring_secure.Base.{
  ℕ, ◌%◌, ◌^◌, ◌<◌, false, CString, same_text, List, [], ◌∷◌, ◌++◌, Option, none, some, ◌==◌,
  ==_iff, ◌≡◌, refl, ap, ◌∙◌, arith, All, All-append, Bool-cases, inl, inr, ◌⊎◌,
}
use node_wiring_secure.Celix.{illegal_argument}
use node_wiring_secure.Celix.HashMap.{Map, lookup}
use node_wiring_secure.Endpoint.{get, wire_id_key}
use node_wiring_secure.Celix.Numbers.{sign_extend}
use node_wiring_secure.RemoteServiceAdmin.Description.{Description}
use node_wiring_secure.RemoteServiceAdmin.Exporting.{Export, all_exports}
use node_wiring_secure.RemoteServiceAdmin.World.{World, Outside, Jansson, SendService, sends}
use node_wiring_secure.RemoteServiceAdmin.Requests.{
  Answer, request_text, first_with, last_with, requested_service, send, receive, call_found,
}
use node_wiring_secure.RemoteServiceAdmin.Requests.Errors.{sent, answer, send_lem}

-- jansson reads back what it has written, and finds in an object what was packed into it.
abbrev pub Unpacks : {Json : Type 0} → Jansson Json → Type 0
Unpacks {Json} j =
    (n : ℕ) (v : Json)
    → (root : Json) × (j.loads (j.dumps (j.pack n v)) ≡ some root)
      × (j.unpack root ≡ (some n, some v))

-- The export is not of the service with this id.
abbrev pub Differs : ℕ → Export → Type 0
Differs id e = (id == e.endpoint.service_id) ≡ false

-- The list has an export of the service, and that is the answer.
abbrev pub IsFound : ℕ → List Export → Option Export → Type 0
IsFound id es found = (e : Export) × Memᴰ e es × (id ≡ e.endpoint.service_id) × (found ≡ some e)

first_with-cases :
    (id : ℕ) (es : List Export)
    → (All (Differs id) es × (first_with id es ≡ none)) ⊎ IsFound id es (first_with id es)
unfolding first_with
first_with-cases id [] = inl (tt, refl)
first_with-cases id (e ∷ es) = elim (Bool-cases (id == e.endpoint.service_id)) [
  | inl hit ↦ rw hit (inr (e, Memᴰ.head refl, (==_iff id e.endpoint.service_id).0 hit, refl))
  | inr miss ↦ elim (first_with-cases id es) [
    | inl (rest, absent) ↦ rw miss (inl ((refl, rest), absent))
    | inr (f, listed, same, found) ↦ rw miss (inr (f, Memᴰ.tail listed, same, found))
  ]
]

Memᴰ-right {ℓ} : {A : Type ℓ} (es fs : List A) (e : A) → Memᴰ e fs → Memᴰ e (es ++ fs)
Memᴰ-right [] fs e h = h
Memᴰ-right (x ∷ es) fs e h = Memᴰ.tail (Memᴰ-right es fs e h)

Memᴰ-left {ℓ} : {A : Type ℓ} (e : A) (es fs : List A) → Memᴰ e es → Memᴰ e (es ++ fs)
Memᴰ-left e es fs (Memᴰ.head p) = Memᴰ.head p
Memᴰ-left e (x ∷ es) fs (Memᴰ.tail h) = Memᴰ.tail (Memᴰ-left e es fs h)

-- What is found among all services, if nothing has been found before.
last_with-cases :
    (id : ℕ) (m : Map ℕ (List Export)) (before : Option Export)
    → (All (Differs id) (all_exports m) × (last_with id m before ≡ before))
      ⊎ IsFound id (all_exports m) (last_with id m before)
unfolding last_with
last_with-cases id [] before = inl (tt, refl)
last_with-cases id ((r, es) ∷ m) before = elim (first_with-cases id es) [
  | inl (absent, nothing) ↦
      rw (last_with, nothing)
        (elim (last_with-cases id m before) [
          | inl (rest, same) ↦ inl (All-append (Differs id) es (all_exports m) absent rest, same)
          | inr (f, listed, same, found) ↦
              inr (f, Memᴰ-right es (all_exports m) f listed, same, found)
        ])
  | inr (e, here, same_e, hit) ↦
      rw (last_with, hit)
        (elim (last_with-cases id m (some e)) [
          | inl (rest, same) ↦ inr (e, Memᴰ-left e es (all_exports m) here, same_e, same)
          | inr (f, listed, same, found) ↦
              inr (f, Memᴰ-right es (all_exports m) f listed, same, found)
        ])
]

sign_extend_small : (n : ℕ) → n < 2 ^ 31 → sign_extend (n % 2 ^ 32) ≡ n
unfolding sign_extend
sign_extend_small n small = ground arith

receive_text :
    {Json : Type 0} (p : Outside Json) (text : CString) (root value : Json) (n : ℕ) (v : World)
    → p.json.loads text ≡ some root
    → p.json.unpack root ≡ (some n, some value)
    → receive p text v
      ≡ call_found p
          (some (p.json.dumps value))
          (last_with (requested_service (some n)) v.admin.exported_services none)
          v
unfolding receive
receive_text p text root value n v loaded unpacked = rw (receive, loaded, unpacked)

-- The text of a request for a service with an id below 2^31 is received as this request for this id.
pub receive-packed :
    {Json : Type 0} (o p : Outside Json) (id : ℕ) (value : Json) (v : World)
    → p.json ≡ o.json
    → Unpacks o.json
    → id < 2 ^ 31
    → receive p (o.json.dumps (o.json.pack (id % 2 ^ 32) value)) v
      ≡ call_found p (some (p.json.dumps value)) (last_with id v.admin.exported_services none) v
unfolding requested_service
receive-packed o p id value v same unpacks small =
    let (root, loaded, unpacked) = unpacks (id % 2 ^ 32) value in
    receive_text p (o.json.dumps (o.json.pack (id % 2 ^ 32) value)) root value (id % 2 ^ 32) v
      (ap (λ j. j.loads (o.json.dumps (o.json.pack (id % 2 ^ 32) value))) same ∙ loaded)
      (ap (λ j. j.unpack root) same ∙ unpacked)
    ∙ ap
        (λ id.
          call_found p (some (p.json.dumps value)) (last_with id v.admin.exported_services none) v)
        (sign_extend_small id small)

-- What a registration is called with, or that there is none.
receive-cases :
    {Json : Type 0} (p : Outside Json) (id : ℕ) (request : Option CString) (v : World)
    → (All (Differs id) (all_exports v.admin.exported_services)
        × (call_found p request (last_with id v.admin.exported_services none) v
            ≡ some ((illegal_argument, none), v)))
      ⊎ ((e : Export) × Memᴰ e (all_exports v.admin.exported_services)
          × (id ≡ e.endpoint.service_id)
          × (call_found p request (last_with id v.admin.exported_services none) v
              ≡ call_found p request (some e) v))
unfolding call_found
receive-cases p id request v = elim (last_with-cases id v.admin.exported_services none) [
  | inl (absent, nothing) ↦ inl (absent, ap (λ f. call_found p request f v) nothing)
  | inr (e, listed, same, found) ↦ inr (e, listed, same, ap (λ f. call_found p request f v) found)
]

-- Over a wire with a send service, a request for a service whose id is below 2^31 is sent as a text;
-- and a remote service admin that receives this text, on whatever state, calls with that request a
-- registration that it has for the service id, or refuses the text if it has none.
pub receive-send :
    {Json : Type 0} (o p : Outside Json) (d : Description) (wire request : CString) (value : Json)
    (s : SendService) (w v : World)
    → p.json ≡ o.json
    → Unpacks o.json
    → get d.properties wire_id_key ≡ some wire
    → lookup same_text wire w.admin.send_services ≡ some s
    → d.service_id < 2 ^ 31
    → o.json.loads request ≡ some value
    → (text : CString) × ((a : Answer) × (w' : World) × (send o d request w ≡ some (a, w'))
        × Memᴰ (sends s.address (some text)) w'.history)
      × ((All (Differs d.service_id) (all_exports v.admin.exported_services)
            × (receive p text v ≡ some ((illegal_argument, none), v)))
          ⊎ ((e : Export) × Memᴰ e (all_exports v.admin.exported_services)
              × (d.service_id ≡ e.endpoint.service_id)
              × (receive p text v ≡ call_found p (some (p.json.dumps value)) (some e) v)))
unfolding request_text
receive-send o p d wire request value s w v same unpacks wired there small parses =
    let n = d.service_id % 2 ^ 32 in
    let text = o.json.dumps (o.json.pack n value) in
    let written : request_text o.json d.service_id request ≡ some text =
      rw (request_text, parses) in
    let received = receive-packed o p d.service_id value v same unpacks small in
    (
      text,
      (
        answer o d wire wired text s w,
        sent o d wire wired text s w,
        send_lem o d wire wired request text s w there written,
        Memᴰ-right w.history _ (sends s.address (some text)) (Memᴰ.head refl),
      ),
      elim (receive-cases p d.service_id (some (p.json.dumps value)) v) [
        | inl (absent, refused) ↦ inl (absent, received ∙ refused)
        | inr (e, listed, id, called) ↦ inr (e, listed, id, received ∙ called)
      ],
    )
