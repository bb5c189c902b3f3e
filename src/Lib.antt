-- ===== src/Lib.antt =====
-- Verification of the machine plane: the node program of the mesh, which places workloads on
-- nodes, reserves capacity for them, verifies signed messages, and runs containers.
--
-- The parts, and the files that model them:
--   Scheduler   machineplane/scheduler/src/lib.rs. `schedule_workload` filters the available
--               candidates, cuts the number that is asked for, and calls one of four strategies.
--               `Scheduler.round_robin_counter` is passed on as state. `load_factor` is an `f32`,
--               whose type and `partial_cmp` are parameters.
--   Resources   machineplane/machine/src/resource_verifier.rs and the constants of
--               machineplane/protocol/src/libp2p_constants.rs. `ResourceVerifier` is a record of
--               the node's amounts and the reservations by request id. `reserve_capacity` is the
--               run that nothing interrupts; Resources/Race has the phases between which its locks
--               are free. Resources/Host reads the texts of /proc and the output of `df`.
--   Envelope    machineplane/machine/src/libp2p_beemesh/envelope.rs, with the nonce store of
--               machineplane/crypto/src/flatbuffer_envelope.rs, `sign_envelope` and
--               `verify_envelope` of machineplane/crypto/src/lib.rs and the builders of
--               machineplane/protocol/src/lib.rs. The record `Primitives` stands for FlatBuffers,
--               base64 and ML-DSA-65, which are not part of the repository.
--   Provider    machineplane/machine/src/provider/mod.rs. `ProviderManager` keeps the manifests
--               that this node provides, the providers of other manifests, and the channels that
--               wait for an answer.
--               Provider/Announcements is machineplane/machine/src/provider/announcements.rs, the
--               announcement and its bytes; Provider/Discovery is provider/discovery.rs beside it,
--               with its queries, waiting channels and cache.
--   Runtime     machineplane/machine/src/runtime/mod.rs: the engines' interface as a record over
--               what the engines keep outside of the program, and the registry.
--   Workload    machineplane/machine/src/workload_manager.rs: deployments over the registry and
--               the provider manager. The manager's record also holds what the engines keep and
--               what its event channel was sent.
--   Node        machineplane/machine/src/workload_integration.rs and the handlers of
--               machineplane/machine/src/libp2p_beemesh: `Node` is the process-wide state, the
--               record `Libraries` stands for FlatBuffers, YAML, UTF-8 and decryption. Apply,
--               Deployment and Removal are the apply path and its engines' calls, Delete is
--               behaviour/delete_message.rs, Bidding is behaviour/scheduler_message.rs and
--               behaviour/gossipsub_message.rs with utils.rs, capacity.rs and reply.rs.
--   Wire        machineplane/machine/src/libp2p_beemesh/request_response_codec.rs: the frames of a
--               stream, a list of the bytes that are still to come.
--   Engines     machineplane/machine/src/runtime/engines/podman.rs and docker.rs and
--               machineplane/machine/src/runtime/mock.rs: what the engines of the registry do. The
--               record `System` stands for processes, files, YAML and JSON; a command is a program
--               with its arguments and environment, and running it steps the host. The mock engine
--               keeps its workloads in the host's `Books`, and its draws are an argument.
--   Rest        machineplane/machine/src/restapi: envelope_handler.rs is Rest itself, and mod.rs is
--               Tasks, Deletion and Forwarding. `RestState` is the node with the store of tasks;
--               the record `Control` stands for what the control channel answers. Rest/Ids compares
--               the ids of manifests with those of machineplane/cli/src/lib.rs.
--   Text        the `str` operations of the standard library that these parts need.
--   HashMap     `HashMap<String, V>` as an association list.
--   Prelude     shared names and lemmas.
--
-- The manager of workloads calls an engine of the registry, stores the deployment and announces it
-- through the provider manager; the verifier asks the default engine for what is allocated. A node
-- bids on a capacity request with a reservation of its verifier; the apply request that follows is
-- verified as an envelope, needs that reservation, and is deployed on an engine of the registry. A
-- task is created and deleted over HTTP; a deletion asks the control channel for the providers of the
-- manifest, removes the node's own workloads and asks the other providers.
--
-- Numbers are natural numbers; where the code uses machine integers, the wrap-around of a release
-- build or the saturation is written out, and `usize` has 64 bits. An instant is a number of
-- nanoseconds. Each reading of a clock is an argument, as is what the network answers. Locks that
-- are held for a whole operation make it one step. Operations that take locks one after the other
-- are modelled as the run that nothing interrupts: `reserve_capacity` between its comparisons and
-- its insertion, and `deploy_workload`, `get_workload_status` and `remove_workload` of
-- workload_manager.rs, which hold no lock on the deployments while the engine works. Resources/Race
-- and Workload/Changes/Stale have interrupted runs as well. The order in which a hash set gives its
-- entries is an argument of the scheduler, and may be any. A panic is a value where a model has
-- one: the slice of a received text in the log line of `get_candidates` is, and whether the level
-- `info` is logged is an argument. Two loops are on fuel: that of the random strategy, whose fuel
-- is `MAX_ATTEMPTS`, the bound of the code itself, so that running out of it is a failure of the
-- code; and the printing of a number, which is given at least as much as the number has digits.
--
-- Not modelled: the DHT manager, handshakes, control messages and the event loop, signing and
-- encryption of replies (a reply carries the key that it is encrypted with), the debug endpoints and
-- those for keys and nodes, key files, the command line (but for its manifest ids) and the work plane.
-- Of the modelled files, `reannounce_local_providers`, `discover_manifest_providers`, timers and
-- logging are left out, since they change no state or only pass on. A panic of a thread that a bid
-- spawns is left out as well.
pub mod Prelude
pub mod HashMap
pub mod Text
pub mod Wire
pub mod Runtime
pub mod Scheduler
pub mod Resources
pub mod Envelope
pub mod Provider
pub mod Workload
pub mod Node
pub mod Engines
pub mod Rest
