-- ===== src/Lib.antt =====
-- INAETICS node-wiring-secure: the wiring of services between nodes, as node-wiring-secure-c does it.
--
-- The parts and how they meet. A wiring endpoint is a set of properties with a wire id. The node
-- discovery keeps the endpoints of the other nodes, which an etcd watcher finds, and those of the own
-- node, and tells its wiring endpoint listeners what comes and goes. The wiring topology manager is
-- such a listener; it lets wiring admins export and import endpoints for the services that ask for a
-- wire, and tells its own listeners (the discovery, remote service admins) what it has exported. The
-- remote service admin asks for wires for the services that it exports and imports, and sends and
-- receives their calls over the services of the wiring admin, which speaks HTTPS with the keys and
-- certificates that the trust manager keeps.
--
--   Base, Base/*           lists, options, texts and decisions on the native ℕ. A C string is the list
--                          of its character codes without the final 0. Base/Action is the monad of
--                          the operations that call outside, fault, and keep a history of the calls.
--   Celix, Celix/*         celix_status_t, hash_map_pt, properties_pt, and the numbers of the C library.
--                          A hash map is the list of its entries in iteration order.
--   Endpoint, Endpoint/*   wiring_common_secure/private/src/wiring_endpoint_description.c
--   Listener               wiring_common_secure/public/include/wiring_endpoint_listener.h
--   Discovery/Listening, Discovery/Loops, Discovery
--                          node_discovery/private/src/node_discovery.c and node_description.c: the
--                          record Discovery is struct node_discovery, and each handler is a function
--                          of its name from a state to a new state with the events it causes.
--   Discovery/*            the theorems: Wires (wire ids), Knowledge and WireSets (which node has which
--                          wire), Notices, Inputs and Run (what listeners are told over a sequence of inputs),
--                          Sync, Resync, Unique, Own; and Lifecycle (creation and end).
--   Codec, Codec/*         node_discovery/private/src/wiring_endpoint_writer.c and
--                          wiring_endpoint_reader.c: the text that an endpoint is in etcd.
--   Etcd, Etcd/*           node_discovery/private/src/etcd.c: the requests and what is read from the
--                          replies.
--   Watcher, Watcher/*     node_discovery/private/src/etcd_watcher.c: the keys and values in etcd, what
--                          a change there does to the discovery, the loop of its thread (Running),
--                          its creation and end (Lifecycle); the theorems in Keys, Arrival, Foreign,
--                          Running/Outage and Running/SlashRoot.
--   Topology/World         struct wiring_topology_manager, the wiring admins and listeners outside,
--                          and the monad of the operations.
--   Topology/Matching, Notify, Export, Import
--                          wiring_topology_manager/private/src/wtm.c
--   Topology/Admins, Tracker
--                          wtm_wadmin_tracker.c and wtm_wendpointlistener_tracker.c
--   Topology/*/*           the theorems on each: Matching/Meaning, Notify/Reach and
--                          Notify/Wanting, Export/Wires and
--                          Export/Reuse, Import/Dropping and Import/Losing, Admins/Removal and
--                          Admins/Waiting, Tracker/Offering.
--   WiringAdmin, WiringAdmin/*
--                          wiring_admin_secure/private/src/wiring_admin_impl.c: the receive services
--                          and the HTTP callback; Server (its start with the retries), Exports, Imports,
--                          Sending, Lifecycle (creation, stop, the address of
--                          wiring_common_secure/private/src/wiring_common_utils.c), and the theorems in
--                          Receiving, Port, Server/Retries, Exports/Published, Imports/Paired and
--                          Sending/Delivery.
--   RemoteServiceAdmin, RemoteServiceAdmin/*
--                          remote_service_admin_inaetics/rsa/private/src/remote_service_admin_impl.c
--                          over Description, Exporting and Importing, which are endpoint_description.c,
--                          export_registration_dfi.c and import_registration_dfi.c of
--                          remote_service_admin/private/src. World is struct remote_service_admin and
--                          what is outside; Wires, Removing, Services, Requests and Trackers are its
--                          handlers, and their children the theorems.
--   Call                   a remote call from end to end, over the remote service admins and the wiring
--                          admins of two nodes.
--   Activators, Activators/Hearing, Activators/Scopes
--                          node_discovery/private/src/node_discovery_activator.c and
--                          wiring_topology_manager/private/src/wtm_activator.c: what the two listeners
--                          of a node are registered with, and what they tell each other.
--   TrustManager, TrustManager/*
--                          trust_manager/private/src: Storage, CaResponse and CertHandler are
--                          trust_manager_storage.c, trust_manager_caresponse.c and
--                          trust_manager_certhandler.c; the theorems on the files in Storage/Recent.
-- All these paths are under node-wiring-secure-c.
--
-- How the C code is read. A null pointer that is read is a fault: `none` of an Option in the
-- discovery and in the endpoints, `none` of the monad M in the topology manager. Memory that is
-- freed is an event where a property needs it and is not modelled elsewhere; allocation succeeds
-- unless an argument says otherwise. Locks are taken and released without an error, so each
-- handler is one step; a sequence of handlers is a list of inputs.
--
-- What is outside is a parameter: Celix (filters, service references) is the record Framework;
-- what the topology manager and the remote service admin call are records Outside, whose answers
-- may depend on all earlier calls; curl is a function (Perform, Curl) and jansson a record on any
-- kind of values. dyn_interface, jsonRpc and the file system are answers that the operations are
-- given. Where a theorem needs something of them, it is a named hypothesis (ExportsReturn,
-- RemovalsSucceed, TrimKeeps, Unpacks, IsOutcome, SendsOver, ReadsScopes, IsRegistered).
-- utils_stringHash, utils_stringTrim and the keys of the OSGi headers are arguments. A handler
-- that is called back within another, where the code gives up a lock for it, is a step of its
-- own. Three things are taken to go well that the code does not look at: the discovery gets the
-- service of each tracked listener, no bundle uses an import's factory when it is unregistered,
-- and the port of a further try is still in the buffer whose block has ended.
--
-- Fuel. Three loops have a bound. The loop of waAdded over the waiting exports starts again after
-- each success, so its fuel is the number of requests; the theorem on export_waiting shows that
-- more fuel changes nothing. The start of the web server tries five ports, and the loop of
-- removeImportedWiringEndpoint makes as many rounds as its list is long at the start, as the code
-- does. The loops of the threads run over a list of rounds, of any length.
--
-- Not modelled: the making of keys and certificate requests (mbedtls), the worker of the trust
-- manager that asks for them (trust_manager_worker.c), the web server civetweb, which is another
-- project's library, what only frees memory or prints, the other activators, which register
-- services with Celix, and the Java implementation.
pub mod Base
pub mod Celix
pub mod Endpoint
pub mod Listener
pub mod Codec
pub mod Etcd
pub mod Discovery
pub mod Watcher
pub mod Topology
pub mod WiringAdmin
pub mod RemoteServiceAdmin
pub mod Call
pub mod Activators
pub mod TrustManager
