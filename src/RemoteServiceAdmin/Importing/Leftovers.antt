-- ===== src/RemoteServiceAdmin/Importing/Leftovers.antt =====
-- What is left of the proxies when an import is removed.
use node_wiring_secure.Base.{ℕ, true, List, [], ◌∷◌, none, some, ◌==◌, ◌≡◌, ◌≢◌, ◌↔◌, refl, sym}
use mathlib.Core.Option.{none-ne-some}
use mathlib.Core.List.{cons-ne-nil}
use node_wiring_secure.Celix.HashMap.{Map, AllValues}
use node_wiring_secure.RemoteServiceAdmin.Importing.{Proxy, destroy_proxy, clear_proxies}
use node_wiring_secure.RemoteServiceAdmin.Importing.Usage.{Live}

-- Proxies that are live can be destroyed once; a second time, only if there are none.
pub clear_twice :
    (m : Map ℕ Proxy)
    → AllValues Live (λ x y. x == y) m
    → (m' : Map ℕ Proxy) × (clear_proxies m ≡ some m') × ((clear_proxies m' ≡ none) ↔ (m ≢ []))
unfolding clear_proxies destroy_proxy
clear_twice [] live = ([], refl, ((λ h. absurd (none-ne-some [] (sym h))), (λ h. absurd (h refl))))
clear_twice ((b, p) ∷ m) live =
    let (m', ran, again) = clear_twice m live.1 in
    (
      (b, record p { is_freed = true }) ∷ m',
      rw (live.0, ran),
      ((λ h. cons-ne-nil (b, p) m), (λ h. refl)),
    )

abbrev pub unused : ℕ → ℕ
unused b = 0
