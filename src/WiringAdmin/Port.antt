-- ===== src/WiringAdmin/Port.antt =====
-- The port option of the web server.
use node_wiring_secure.Base.{
  ◌≤◌, CString, codes, [], ◌∷◌, ◌++◌, length, length-append, ◌≡◌, ◌↔◌, refl, ap, arith,
}
use node_wiring_secure.WiringAdmin.{secure_port}

-- The option for a port ends in the 's' that asks the web server for TLS exactly if the port has at
-- most four characters: of a longer one, only the first five characters are the option.
pub secure_port_iff : (port : CString) → (secure_port port ≡ port ++ codes "s") ↔ (length port ≤ 4)
unfolding secure_port
secure_port_iff [] = ((λ h. omega arith), (λ h. refl))
secure_port_iff (a ∷ []) = ((λ h. omega arith), (λ h. refl))
secure_port_iff (a ∷ b ∷ []) = ((λ h. omega arith), (λ h. refl))
secure_port_iff (a ∷ b ∷ c ∷ []) = ((λ h. omega arith), (λ h. refl))
secure_port_iff (a ∷ b ∷ c ∷ d ∷ []) = ((λ h. omega arith), (λ h. refl))
secure_port_iff (a ∷ b ∷ c ∷ d ∷ e ∷ s) = (
  (λ h. absurd (omega (arith, ap length h, length-append s (codes "s")))),
  (λ h. absurd (omega (arith, h))),
)
