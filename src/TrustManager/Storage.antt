-- ===== src/TrustManager/Storage.antt =====
-- trust_manager/private/src/trust_manager_storage.c: the files of the trust manager.
pub mod Recent
use node_wiring_secure.Base.{
  ℕ, zero, suc, ◌+◌, ◌-◌, Bool, true, false, CString, codes, same_text, List, [], ◌∷◌, ◌++◌, Option,
  none, some, ◌>>=◌, if◌then◌else◌,
}
use node_wiring_secure.Codec.{fit}

-- The kinds of files.
pub data Kind : Type 0 where
  ca private_key public_key certificate full_certificate : Kind

-- The name of each; its regular expression matches this name and no other.
unfoldable pub file_name : Kind → CString
file_name ca = codes "ca.pem"
file_name private_key = codes "client_priv.key"
file_name public_key = codes "client_pub.key"
file_name certificate = codes "client.pem"
file_name full_certificate = codes "client_full.pem"

abbrev pub join_path : CString → CString → CString
join_path folder name = folder ++ (codes "/" ++ name)

-- get_next_certificate_file_path and its kin, which print into 1024 bytes.
unfoldable pub next_file_path : Kind → CString → Option CString
next_file_path kind storage = fit 1024 (join_path storage (file_name kind))

-- check_create_keyfolder: whether the folder is there after it
unfoldable pub check_create_keyfolder : Bool → Bool → Bool
check_create_keyfolder exists can_create = if exists then true else can_create

-- What get_recent_file_by_regex returns: its code, the path that it has copied, if any, and the files
-- that it has removed.
pub record Found : Type 0 where
  pub code : ℕ
  pub path : Option CString
  pub removed : List CString

abbrev pub removes : CString → ℕ → List CString → ℕ × List CString
removes path zero removed = (zero, removed ++ (path ∷ []))
removes path (suc skip) removed = (skip, removed)

-- A match: the first one is copied, the next `skip` are passed over, and the others are removed.
unfoldable pub on_match :
    CString → Option CString → ℕ → List CString → Option CString × ℕ × List CString
on_match path none skip removed = (some path, skip, removed)
on_match path (some first) skip removed =
    let (left, gone) = removes path skip removed in (some first, left, gone)

abbrev pub code_of : Option CString → ℕ
code_of none = 1
code_of (some path) = 0

-- The loop over the entries of the folder, with the path copied so far, the matches that are still
-- passed over, and what has been removed. A path that does not fit its 1024 bytes is a fault.
unfoldable pub scan :
    Kind → CString → List CString → Option CString → ℕ → List CString → Option Found
scan kind folder [] first skip removed =
    some (record { code = code_of first; path = first; removed = removed })
scan kind folder (name ∷ names) first skip removed =
    if same_text name (file_name kind)
    then (do
      path ← fit 1024 (join_path folder name)
      let (first', skip', removed') = on_match path first skip removed
      scan kind folder names first' skip' removed')
    else scan kind folder names first skip removed

-- get_recent_file_by_regex, by the entries of the folder if it can be opened
unfoldable pub get_recent : Option (List CString) → Kind → CString → Option Found
get_recent none kind folder = some (record { code = 2; path = none; removed = [] })
get_recent (some names) kind folder = scan kind folder names none 2 []

-- What a function that reads a file does: it returns with the content, or ends the process.
pub data Reading : Type 0 where
  content : CString → Reading
  exits : Reading

-- read_file_contents, by the text of the file at a path; an empty file is an error of fread.
unfoldable pub reading : Option CString → Reading
reading none = exits
reading (some []) = exits
reading (some (c ∷ cs)) = content (c ∷ cs)

unfoldable pub read_file_contents : (CString → Option CString) → CString → Reading
read_file_contents files path = reading (files path)

-- get_recent_certificate_content and its kin: where no file is found, the path is not set, and reading
-- it is a fault, and so is a path that does not fit the 256 bytes that are allocated for it.
unfoldable pub recent_content :
    (CString → Option CString) → Option (List CString) → Kind → CString → Option Reading
recent_content files names kind folder = do
  r ← get_recent names kind folder
  path ← r.path
  copied ← fit 256 path
  some (read_file_contents files copied)
