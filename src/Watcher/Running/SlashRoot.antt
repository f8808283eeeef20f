-- ===== src/Watcher/Running/SlashRoot.antt =====
-- The full synchronisation below a root path that ends in '/'.
use mathlib.Core.List.{Memᴰ}
use mathlib.Core.Option.{none-ne-some, some-injective}
use node_wiring_secure.Base.{
  ℕ, ◌≤◌, Bool, true, CString, List, [], ◌∷◌, ◌++◌, Option, none, some, Option-cases, inl, inr,
  Bool-cases, any, length, ◌≡◌, refl, sym, ap, ◌∙◌,
}
use node_wiring_secure.Listener.{Framework, is_none}
use node_wiring_secure.Discovery.{Discovery}
use node_wiring_secure.Etcd.{Jansson, Perform, max_nodes, etcd_get, etcd_get_endpoints}
use node_wiring_secure.Watcher.{root_path, ends_in_slash, cut, local_node_path, parse_key}
use node_wiring_secure.Watcher.Keys.{IsSegment, whole_key, parse_key-slash_root}
use node_wiring_secure.Watcher.Foreign.{is_foreign, add_existing-foreign}
use node_wiring_secure.Watcher.Running.{
  Setup, Entry, values_at, read_each, add_already_existing_nodes,
}

any-first : {A : Type 0} (p : A → Bool) (x : A) (xs : List A) → p x ≡ true → any p (x ∷ xs) ≡ true
unfolding any
any-first p x xs h = rw h refl

any-later :
    {A : Type 0} (p : A → Bool) (x : A) (xs : List A) → any p xs ≡ true → any p (x ∷ xs) ≡ true
unfolding any
any-later p x xs h = elim (Bool-cases (p x)) [
  | inl hit ↦ rw hit refl
  | inr miss ↦ rw (miss, h) refl
]

module _ {Json : Type 0} (j : Jansson Json) (f : Framework) (c : Setup) (reading : Perform) where
  -- If all keys can be read, one that is not of the form of a published key and has a value is among
  -- what was read.
  read_each-foreign :
      (root key value : CString) (index : ℕ)
      → is_none (parse_key root key) ≡ true
      → etcd_get j reading c.server key ≡ some (some (value, index))
      → (keys : List CString) → Memᴰ key keys
      → (entries : List Entry) → read_each j f c reading keys ≡ some entries
      → any (is_foreign root) (values_at entries) ≡ true
  unfolding read_each
  read_each-foreign root key value index bad there [] here entries done = elim here [ ]
  read_each-foreign root key value index bad there (k ∷ ks) (Memᴰ.head same) entries done =
      let got : etcd_get j reading c.server k ≡ some (some (value, index)) =
        ap (etcd_get j reading c.server) (sym same) ∙ there in
      elim (Option-cases (read_each j f c reading ks)) [
        | inl broken ↦ absurd (none-ne-some entries (sym (rw (got, broken) refl) ∙ done))
        | inr (rest, read) ↦
            let all : (k, some (value, index)) ∷ rest ≡ entries =
              some-injective _ _ (sym (rw (got, read) refl) ∙ done) in
            ap (λ es. any (is_foreign root) (values_at es)) (sym all)
            ∙ any-first (is_foreign root) (k, some value) (values_at rest)
                (ap (λ x. is_none (parse_key root x)) (sym same) ∙ bad)
      ]
  read_each-foreign root key value index bad there (k ∷ ks) (Memᴰ.tail here) entries done =
      elim (Option-cases (etcd_get j reading c.server k)) [
        | inl broken ↦ absurd (none-ne-some entries (sym (rw broken refl) ∙ done))
        | inr (found, got) ↦ elim (Option-cases (read_each j f c reading ks)) [
          | inl broken ↦ absurd (none-ne-some entries (sym (rw (got, broken) refl) ∙ done))
          | inr (rest, read) ↦
              let all : (k, found) ∷ rest ≡ entries =
                some-injective _ _ (sym (rw (got, read) refl) ∙ done) in
              ap (λ es. any (is_foreign root) (values_at es)) (sym all)
              ∙ later found k rest
                  (read_each-foreign root key value index bad there ks here rest read)
        ]
      ]
    where
      later :
          (found : Option (CString × ℕ)) (k : CString) (rest : List Entry)
          → any (is_foreign root) (values_at rest) ≡ true
          → any (is_foreign root) (values_at ((k, found) ∷ rest)) ≡ true
      later none k rest h = any-later (is_foreign root) (k, none) (values_at rest) h
      later (some (v, i)) k rest h = any-later (is_foreign root) (k, some v) (values_at rest) h

  -- Where the root path ends in '/' and the zone has a character and no '/', and the whole key has room: if
  -- etcd lists the key that the own node publishes one of its endpoints under, and has a value for it,
  -- the full synchronisation reads a null pointer, whatever else etcd lists, holds or fails to answer.
  pub add_already_existing_nodes-slash_root :
      (listing : Perform) (root path value w : CString) (index : ℕ) (found : Bool)
      (keys : List CString) (s : Discovery)
      → root_path c.setting.configured ≡ some root
      → ends_in_slash root ≡ some true
      → IsSegment s.own_node.zone_id
      → length (whole_key root (47 ∷ []) s.own_node w) ≤ 4095
      → local_node_path c.setting.configured s.own_node ≡ some path
      → etcd_get_endpoints j max_nodes listing c.server root ≡ some (found, keys)
      → Memᴰ (47 ∷ cut (path ++ (47 ∷ w))) keys
      → etcd_get j reading c.server (47 ∷ cut (path ++ (47 ∷ w))) ≡ some (some (value, index))
      → add_already_existing_nodes j f c listing reading s ≡ none
  unfolding add_already_existing_nodes
  add_already_existing_nodes-slash_root listing root path value w index found keys s rooted slash hz
        short placed listed here there =
      let (p, same, unread) =
        parse_key-slash_root c.setting.configured s.own_node root w rooted short slash hz in
      let bad : is_none (parse_key root (47 ∷ cut (path ++ (47 ∷ w)))) ≡ true =
        ap (λ q. is_none (parse_key root (47 ∷ cut (q ++ (47 ∷ w)))))
          (some-injective _ _ (sym placed ∙ same))
        ∙ ap is_none unread in
      elim (Option-cases (read_each j f c reading keys)) [
        | inl broken ↦ rw (rooted, listed, broken) refl
        | inr (entries, read) ↦
            rw
              (
                rooted,
                listed,
                read,
                add_existing-foreign f c.setting root rooted s (values_at entries) (
                    read_each-foreign root (47 ∷ cut (path ++ (47 ∷ w))) value index bad there keys
                      here entries read),
              )
              refl
      ]
