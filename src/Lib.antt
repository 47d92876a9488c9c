-- ===== src/Lib.antt =====
-- A model of the Open Liberty operator: how OpenLibertyApplication instances of a namespace share
-- resources (LTPA keys, password encryption keys), how performance data is collected from pods, how a
-- Semeru compiler is replaced by the next one, and how a pod is traced.
--
-- The parts, and the files that model them:
--   Version: operand versions such as v1_4_0 (utils/utils.go: IsOperandVersionString,
--     IsValidOperandVersion, CompareOperandVersion, CompareLibertyVersion, GetOperandVersionString).
--   Tree: decision trees (utils/tree/tree.go). A shared resource is described by a path of its
--     decision tree, and a label on the resource keeps the path as `<version>.<leaf index>`. Tree/Node
--     has the YAML values, Tree/Walk and Tree/Index the traversals GetPathFromLeafIndex and
--     GetLeafIndex, Tree/Traverse CanTraverseTree, Tree/Maps the casts, ValidateMaps,
--     GetLatestOperandVersion and GetLabelFromDecisionPath, Tree/Replace ReplacePath, whose end is the
--     subject of Tree/Downgrade.
--   Tracker: the leader trackers (utils/leader_tracker.go), which say what instance owns what
--     resource; Tracker/Codec is their form in a Secret (CustomizeLeaderTracker, GetLeaderTracker).
--   Sharing: electing the owner of a resource (internal/controller/resource_sharing.go):
--     reconcileLeaderWithState and RemoveLeader on a list of trackers, and in Sharing/Store the calls
--     that read and write the Secret. The Kubernetes client is the parameter `Cluster`; it reads from a
--     cache, so that a later read need not show a write yet, and Sharing/Durable speaks of the states
--     where it does. Sharing/Recreate rebuilds the trackers from the labels of the resources
--     (UpdateLeaderTrackersFromUnstructuredList, the last loop of createNewLeaderTrackerList): it reads
--     the labels with Tree/Index and Tree/Replace, and inserts into the list of Tracker.
--     Sharing/Collision is HasDefaultLTPAKeyCollision of internal/controller/ltpa_keys_sharing.go.
--   Injector: the pod injector (utils/socket/pod_injector.go), a server inside the operator that runs
--     the linperf script on pods: the state of its workers, processAction, handleConnection, and the
--     messages and attributes (Injector/Message, with DecodeLinperfAttr of utils/utils.go). A read is
--     split on newlines as handleConnection does. The callback of a script, which does not hold the
--     mutex, is a sequence of steps with other calls between them.
--   Performance: the performance data controller
--     (internal/controller/openlibertyperformancedata_controller.go), a client of the pod injector,
--     with the conditions of its status (api/v1/openlibertyperformancedata_types.go).
--   Encryption: the shared password encryption key
--     (internal/controller/password_encryption_key_sharing.go): mirroring the user's Secrets, finding
--     the internal key, and reconciling it as the leader or as another instance. What the client reads
--     is a `Lookup`, and whether its writes succeed is an argument.
--   Ltpa: the shared LTPA configuration (internal/controller/ltpa_keys_sharing.go): Ltpa/Keys is
--     generateLTPAKeys and Ltpa/Config generateLTPAConfig on the Secrets of a namespace, with the key of
--     Encryption, and Ltpa/Names getLTPAMetadataName with the type of the resource and the environment
--     variables. The tools that make keys and encode a password, the elections and the random suffixes
--     are inputs.
--   Semeru: the Semeru compiler of an application (internal/controller/semeru_compiler.go): the
--     generations of its resources, the reconcile (Semeru/Reconcile), the deletion of completed
--     generations (Semeru/Cleanup), ports, labels and selectors, and what its clients read
--     (Semeru/Client). Semeru/Rounds has any number of reconciles, and Semeru/Growth the generation of
--     each.
--   Trace: the trace controller (internal/controller/openlibertytrace_controller.go): Reconcile,
--     UpdateStatus and the finalizer, with the trace files in the containers. Trace/Runs has
--     any number of reconciles, between which pods come and go.
--   Utils: small functions of utils/utils.go: comma separated lists, times as text, lists of strings,
--     mount names, required labels.
--   Common: Go strings as lists of bytes, numbers, lists, results with an error.
--
-- How the code corresponds to the definitions: a function keeps its name in snake_case. A pointer
-- receiver or a mutated slice is a value that the function returns; an error is a case of Result or of
-- an error type; a panic (an index out of range) is `none` or an error case of its own. An int is an
-- integer ℤ with wrap-around where the code subtracts parsed numbers. A Go map that is iterated over
-- is a list of its entries in some order, and the statements hold for every order.
--
-- Fuel: the loops of Tree/Walk run on fuel; `enough` (Tree/Index) counts the visits of a node and its
-- children, and the laws of Tree/RoundTrip show that the loops end with it. The downgrade loop of
-- Tree/Replace has two rounds more than the replace map has versions: a round that goes on moves to a
-- lower version that is a key of the map. Every other recursion is on a list or a tree.
--
-- Not modelled: the client's own behaviour, caches and watches (`Cluster` and `Inputs` have its
-- answers); the pipes and cancel functions of the workers; locks (each call of the model is one
-- critical section, and so is each step of a callback: a callback that begins while `start` still
-- runs, before the worker is listed, is left out); log lines and events; YAML parsing and files
-- (ParseDecisionTree, the resource signatures); a message that two reads of the socket share, and
-- that a read has at most 1024 bytes. The objects that the controllers fill in for other packages
-- (Deployments, StatefulSets, Certificates, server XML), the tools that make keys, the dump
-- controller, image version checks and the rest of the application controller are not modelled: they
-- mostly call the client or tools outside this repository.
pub mod Common
pub mod Utils
pub mod Version
pub mod Tree
pub mod Tracker
pub mod Sharing
pub mod Injector
pub mod Performance
pub mod Encryption
pub mod Ltpa
pub mod Semeru
pub mod Trace
