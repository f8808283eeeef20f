-- ===== src/TrustManager/Tests.antt =====
-- The trust manager at concrete inputs.
use node_wiring_secure.Base.{true, codes, same_text, List, [], ◌∷◌, CString, ◌≡◌, refl, any}
use node_wiring_secure.TrustManager.Storage.{ca, file_name}

-- What readdir gives for a folder with two files of the trust manager.
abbrev key_folder : List CString
key_folder = codes "." ∷ codes ".." ∷ codes "client.pem" ∷ codes "ca.pem" ∷ []

ca_there : any (same_text (file_name ca)) key_folder ≡ true
unfolding any same_text file_name
ca_there = refl
