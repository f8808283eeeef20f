-- ===== src/RemoteServiceAdmin/Requests/Errors.antt =====
-- The error count of a send service over a sequence of sends.
use node_wiring_secure.Base.{
  ℕ, ◌+◌, ◌*◌, ◌%◌, ◌^◌, ◌<◌, Bool, true, false, CString, same_text, same_text_refl, List, [], ◌∷◌,
  ◌++◌, some, leb, if◌then◌else◌, ◌≡◌, refl, ◌∙◌, arith, count, count-append, Bool-cases, inl, inr,
  append_assoc, All, none,
}
use node_wiring_secure.Celix.HashMap.{lookup, insert, lookup-insert_self}
use node_wiring_secure.Endpoint.{get, wire_id_key}
use node_wiring_secure.RemoteServiceAdmin.Description.{Description}
use node_wiring_secure.RemoteServiceAdmin.World.{
  World, Outside, SendService, Call, M, ◌>>=◌, pure, bind_at, sends, sleeps,
}
use node_wiring_secure.RemoteServiceAdmin.Requests.{
  Answer, is_failed, errors_after, request_text, note_errors, send_over, send,
}

abbrev pub is_sleep : Call → Bool
is_sleep sleeps = true
is_sleep _ = false

-- The count that is stored, and the call that a sleep is.
abbrev pub settled : ℕ → ℕ
settled n = if leb 5 n then 0 else n

abbrev pub naps : ℕ → List Call
naps n = if leb 5 n then sleeps ∷ [] else []

napped : ℕ → ℕ
napped n = if leb 5 n then 1 else 0

count-naps : (n : ℕ) → count is_sleep (naps n) ≡ napped n
unfolding napped count
count-naps n = ground arith

-- The count after one answer, and what of it is slept off.
settled_lem :
    (failed : Bool) (c : ℕ)
    → c < 5
    → let n = if failed then (c + 1) % 2 ^ 32 else c in
      (settled n < 5) × (c + ((if failed then 1 else 0) + 0) ≡ 5 * napped n + settled n)
unfolding napped
settled_lem failed c few = ground arith

module _ {Json : Type 0} (o : Outside Json) (d : Description) (wire : CString)
    (wired : get d.properties wire_id_key ≡ some wire) where
  -- What the send function answers to a text.
  abbrev pub answer : CString → SendService → World → Answer
  answer text s w = o.send w.history s.address text

  -- The world after one send of a text over a send service that is there.
  abbrev pub sent : CString → SendService → World → World
  sent text s w =
      let n = errors_after (answer text s w) s.error_count in
      record {
        admin = record (w.admin) {
          send_services =
              insert same_text wire (record s { error_count = settled n }) w.admin.send_services;
        };
        history = w.history ++ (sends s.address (some text) ∷ naps n);
      }

  pub send_lem :
      (request text : CString) (s : SendService) (w : World)
      → lookup same_text wire w.admin.send_services ≡ some s
      → request_text o.json d.service_id request ≡ some text
      → send o d request w ≡ some (answer text s w, sent text s w)
  unfolding send send_over note_errors
  send_lem request text s w there written =
      elim (Bool-cases (leb 5 (errors_after (answer text s w) s.error_count))) [
        | inl many ↦
            rw (send, wired, there, send_over, written, note_errors, many) (simp append_assoc)
        | inr few ↦ rw (send, wired, there, send_over, written, note_errors, few) refl
      ]

  -- Over a send service that is there, a request that jansson does not read is a fault.
  send-fault :
      (request : CString) (s : SendService) (w : World)
      → lookup same_text wire w.admin.send_services ≡ some s
      → o.json.loads request ≡ none
      → send o d request w ≡ none
  unfolding send send_over request_text
  send-fault request s w there unread =
      rw (send, wired, there, send_over, request_text, unread) refl

  -- The sends of these requests, one after the other.
  unfoldable pub send_all : List CString → M (List Answer)
  send_all [] = pure []
  send_all (q ∷ qs) = do a ← send o d q; rest ← send_all qs; pure (a ∷ rest)

  -- The request is JSON.
  abbrev pub IsJson : CString → Type 0
  IsJson request = (value : Json) × (o.json.loads request ≡ some value)

  written_text :
      (request : CString)
      → IsJson request
      → (text : CString) × (request_text o.json d.service_id request ≡ some text)
  unfolding request_text
  written_text request (value, read) =
      (o.json.dumps (o.json.pack (d.service_id % 2 ^ 32) value), rw (request_text, read))

  -- Of the errors that were counted and those that came, five are slept off at a time.
  pub record Settles (s : SendService) (w : World) (answers : List Answer) (s' : SendService)
      (w' : World) : Type 0 where
    pub there : lookup same_text wire w'.admin.send_services ≡ some s'
    pub few : s'.error_count < 5
    pub slept : ℕ
    pub errors : s.error_count + count is_failed answers ≡ 5 * slept + s'.error_count
    pub sleeps_new : count is_sleep w'.history ≡ count is_sleep w.history + slept

  sent-Settles :
      (request : CString) (s : SendService) (w : World)
      → s.error_count < 5
      → Settles s w
          (answer request s w ∷ [])
          (record s { error_count = settled (errors_after (answer request s w) s.error_count) })
          (sent request s w)
  unfolding count
  sent-Settles request s w few =
      let n = errors_after (answer request s w) s.error_count in
      let text = sends s.address (some request) in
      let (less, sums) = settled_lem (is_failed (answer request s w)) s.error_count few in
      record {
        there = lookup-insert_self same_text wire _ w.admin.send_services (same_text_refl wire);
        few = less;
        slept = napped n;
        errors = sums;
        sleeps_new = omega (arith, count-append is_sleep w.history (text ∷ naps n), count-naps n);
      }

  Settles-∷ :
      (s : SendService) (w : World) (a : Answer) (s1 : SendService) (w1 : World)
      (rest : List Answer) (s2 : SendService) (w2 : World)
      → Settles s w (a ∷ []) s1 w1
      → Settles s1 w1 rest s2 w2
      → Settles s w (a ∷ rest) s2 w2
  unfolding count
  Settles-∷ s w a s1 w1 rest s2 w2 h k = record {
    there = k.there;
    few = k.few;
    slept = h.slept + k.slept;
    errors = omega (arith, h.errors, k.errors);
    sleeps_new = omega (arith, h.sleeps_new, k.sleeps_new);
  }

  -- Over a send service that has fewer than five errors, where all requests are JSON: all sends return,
  -- whatever is answered, the service has fewer than five errors again, and the errors that it had, and
  -- one for each answer that failed, are those that it has and five for each sleep.
  pub send_all-Settles :
      (qs : List CString) (s : SendService) (w : World)
      → All IsJson qs
      → lookup same_text wire w.admin.send_services ≡ some s
      → s.error_count < 5
      → (answers : List Answer) × (s' : SendService) × (w' : World) × (send_all qs w
          ≡ some (answers, w'))
        × Settles s w answers s' w'
  unfolding send_all count
  send_all-Settles [] s w read there few = (
    [],
    s,
    w,
    refl,
    record { there = there; few = few; slept = 0; errors = omega arith; sleeps_new = omega arith },
  )
  send_all-Settles (q ∷ qs) s w read there few =
      let (text, written) = written_text q read.0 in
      let h = sent-Settles text s w few in
      let (answers, s', w', ran, k) = send_all-Settles qs _ (sent text s w) read.1 h.there h.few in
      (
        answer text s w ∷ answers,
        s',
        w',
        bind_at (send o d q) _ w (send_lem q text s w there written)
            ∙ bind_at (send_all qs) _ (sent text s w) ran,
        Settles-∷ s w (answer text s w) _ (sent text s w) answers s' w' h k,
      )
