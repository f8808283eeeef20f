-- ===== src/TrustManager/Storage/Recent.antt =====
-- Which file is the recent one.
use node_wiring_secure.Base.{
  Bool, true, false, CString, same_text, List, [], ◌∷◌, Option, none, some, ◌≡◌, any,
}
use node_wiring_secure.TrustManager.Storage.{Found}

-- No name stands twice.
abbrev pub AreDistinct : List CString → Type 0
AreDistinct [] = Unit
AreDistinct (name ∷ names) = (any (same_text name) names ≡ false) × AreDistinct names

abbrev pub recent : Bool → CString → Found
recent true path = record { code = 0; path = some path; removed = [] }
recent false path = record { code = 1; path = none; removed = [] }
