-- ===== src/Watcher/Foreign.antt =====
-- Keys that are not of the form of a published key, in the loop of the full synchronisation.
use mathlib.Core.Bool.{true≢false}
use node_wiring_secure.Base.{
  Bool, true, false, CString, List, [], ◌∷◌, Option, none, some, Option-cases, Bool-cases, inl, inr,
  any, ◌≡◌, sym, ap, ◌∙◌, arith,
}
use node_wiring_secure.Listener.{Framework, is_none}
use node_wiring_secure.Discovery.{Discovery, add_node}
use node_wiring_secure.Watcher.{
  Setting, root_path, parse_key, describe, get_wiring_endpoint_from_key, add_existing,
}

-- The key has a value, but not the form of a published key.
abbrev pub is_foreign : CString → CString × Option CString → Bool
is_foreign root (key, none) = false
is_foreign root (key, some value) = is_none (parse_key root key)

module _ (f : Framework) (c : Setting) (root : CString)
    (rooted : root_path c.configured ≡ some root) where
  foreign_head :
      (s : Discovery) (key value : CString) (keys : List (CString × Option CString))
      → is_none (parse_key root key) ≡ true
      → add_existing f c s ((key, some value) ∷ keys) ≡ none
  unfolding add_existing get_wiring_endpoint_from_key describe
  foreign_head s key value keys h = elim (Option-cases (parse_key root key)) [
    | inl bad ↦ rw (rooted, bad)
    | inr (parts, fine) ↦ absurd (true≢false (sym h ∙ ap is_none fine))
  ]

  -- If the keys that the loop goes over have one that a node description cannot be read from, with a
  -- value, the loop reads a null pointer, whatever the other keys are.
  pub add_existing-foreign :
      (s : Discovery) (keys : List (CString × Option CString))
      → any (is_foreign root) keys ≡ true
      → add_existing f c s keys ≡ none
  unfolding any add_existing
  add_existing-foreign s [] h = absurd (true≢false (sym h))
  add_existing-foreign s ((key, none) ∷ keys) h = add_existing-foreign s keys h
  add_existing-foreign s ((key, some value) ∷ keys) h =
      elim (Bool-cases (is_none (parse_key root key))) [
        | inl bad ↦ foreign_head s key value keys bad
        | inr fine ↦
            let later : any (is_foreign root) keys ≡ true = ground (arith, h, fine) in
            elim (Option-cases (get_wiring_endpoint_from_key c key (some value))) [
              | inl bad ↦ rw bad
              | inr ((status, none), found) ↦ rw found
              | inr ((status, some d), found) ↦ elim (Option-cases (add_node f s d)) [
                | inl bad ↦ rw (found, bad)
                | inr ((s', ev), added) ↦ rw (found, added, add_existing-foreign s' keys later)
              ]
            ]
      ]
