-- ===== src/Etcd/Tests.antt =====
-- The listing of endpoints at a concrete reply.
use node_wiring_secure.Base.{ℕ, ◌+◌, true, codes, [], ◌∷◌, none, some, ◌≡◌, refl, arith}
use node_wiring_secure.Etcd.{
  Jansson, Perform, Server, document, reply_text, nodes_below, etcd_get_endpoints,
}
use node_wiring_secure.Etcd.Listing.{etcd_get_endpoints-room}

-- A document is its depth; each level has one element below it, and the key "/a".
abbrev depths : Jansson ℕ
depths = record {
  loads = λ text. some 0;
  member = λ v key. some (v + 1);
  elements = λ v. some ((v + 1) ∷ []);
  text = λ v. some (codes "/a");
  integer = λ v. none;
  is_object = λ v. true;
}

abbrev answers : Perform
answers = λ method url body. some (codes "{}" ∷ [])

abbrev local : Server
local = record { server = codes "localhost"; port = 2379 }

-- One key is listed into an array with one slot, and overruns an array without any.
etcd_get_endpoints-room_example :
    etcd_get_endpoints depths 1 answers local (codes "inaetics") ≡ some (true, codes "/a" ∷ [])
unfolding document reply_text nodes_below
etcd_get_endpoints-room_example =
    etcd_get_endpoints-room depths 1 answers local (codes "inaetics") 0 1 refl refl
      ((((codes "/a", refl, omega arith), tt), tt), tt)
