-- ===== src/Lib.antt =====
-- Models of the parts of qiskit_ibm_provider that decide without a server: the accounts and
-- their file, the names of instances, the statuses of jobs, the composite jobs, which run a
-- long list of circuits as several sub-jobs, the scheduling and the padding of dynamic
-- circuits, and the websocket clients.
--
--   - Instance: qiskit_ibm_provider/utils/hgp.py. `from_instance_format` splits
--     "hub/group/project" and `to_instance_format` joins it.
--
--   - Accounts: qiskit_ibm_provider/accounts and the validation of
--     qiskit_ibm_provider/proxies/configuration.py. Accounts.Account has the class Account with
--     its saved format and its checks, Accounts.Storage the JSON file as a dictionary by name
--     (`none` for a missing file), Accounts.Manager the class methods of AccountManager as
--     methods that change the file and may raise, with `migrate` first where the code calls it.
--     Accounts.Migrate, Accounts.RoundTrip and Accounts.Delete have the proofs.
--
--   - Jobs.Status, Jobs.Queue, Jobs.Retry, Jobs.Tags: the tables of
--     qiskit_ibm_provider/apiconstants.py and qiskit_ibm_provider/utils/utils.py,
--     `last_job_stat_pos` and `auto_retry` of qiskit_ibm_provider/job/utils.py, and the tags in
--     which qiskit_ibm_provider/job/ibm_composite_job.py keeps the indexes of its sub-jobs.
--
--   - Jobs.Circuit: `IBMCircuitJob` of qiskit_ibm_provider/job/ibm_circuit_job.py, a method
--     being an action on its attributes that may raise. Messages has the search for an error
--     message in a text; Answers the methods that read the server's answers, `refresh` among
--     them; Waiting the wait for a final state; Outcome `error_message` and `result`; Tags
--     `update_tags`; Lifetime the constructor and the calls of the methods in any order.
--
--   - Jobs.Composite: qiskit_ibm_provider/job/sub_job.py and
--     qiskit_ibm_provider/job/ibm_composite_job.py. SubJobs has the class SubJob; Assembly the
--     loop that splits the circuits, and `sub_job` that finds them; Submission the threads of
--     `_async_submit` with `cancel` and `rerun_failed`, as moves that may come in any order,
--     and Submission/Workers those that the workers of the executor allow; Refresh the status
--     and the queue information; Callback the reports to the user's callback; Restore the
--     branch of `__init__` that takes the sub-jobs from the server; Report the error report and
--     the counts of `report`; Gather the combination of the results, with `SubJob.result`.
--
--   - Service: Pages has the pagination of `_get_jobs` and Listing the filter and the loop of
--     `jobs` of qiskit_ibm_provider/ibm_backend_service.py, Hubs the loop and the order of
--     `_initialize_hgps` of qiskit_ibm_provider/ibm_provider.py.
--
--   - Backend: `IBMBackend` of qiskit_ibm_provider/ibm_backend.py, over the answers of the
--     server (`BackendServer`): the properties, defaults and target that it keeps; Circuits the
--     tests of circuits before a run; Options the options of
--     qiskit_ibm_provider/utils/options.py and `_get_run_config`; Run the method `run` up to
--     the request that it sends.
--
--   - Transpiler: qiskit_ibm_provider/transpiler/passes, of which scheduling has the files
--     named here. BlockOrder has `block_order_op_nodes` of utils.py, which gives the order in
--     which the nodes of a block are visited; Durations how the durations of measurements and
--     resets are patched there; Schedule the visits of scheduler.py, which give each node a
--     block and a time, with a group for the measurements that start together; Padding the
--     visits of block_base_padder.py, which fill the idle time of the wires with what `_pad`
--     answers (`Pad`, with PadDelay as an instance). Padding/Scheduled puts the two together
--     for a circuit without control flow: the padding visits the operations with the blocks and
--     times of the early scheduler. A circuit is the list of its nodes in that order. IdToDelay
--     is the pass of qiskit_ibm_provider/transpiler/passes/basis/convert_id_to_delay.py; in all
--     of them the blocks of a control-flow operation are circuits.
--
--   - Websocket: `BaseWebsocketClient` of qiskit_ibm_provider/api/clients/base.py over the
--     methods of a subclass (`Protocol`), with Status for
--     qiskit_ibm_provider/api/clients/websocket.py and Runtime for
--     qiskit_ibm_provider/api/clients/runtime_ws.py. The handlers are called by a list of
--     events, and `stream` has a list of connections.
--
--   - Utils: `RefreshQueue` of qiskit_ibm_provider/utils/utils.py.
--
-- The numbers are natural numbers: indexes, positions and times are never negative in the code
-- that is modelled. The loop of `auto_retry` has fuel, and one unit for each allowed call is
-- enough; the loop of `_get_jobs` has fuel, and one unit more than there are jobs is enough;
-- the loop of `jobs` has fuel, and two units more than the skip from which the server has no
-- jobs are enough; the loop of `block_order_op_nodes` has fuel, and one unit for each node is
-- enough; the loop of `wait_for_final_state` has fuel, and with a timeout one unit for each
-- 3000 milliseconds and one more are enough; the loop of `stream` goes over the connections,
-- and when no message comes in one more than the retries are enough; every other loop goes over
-- a list. What a circuit job answers or raises (its status, queue information and error
-- message) is fixed while one method of the composite job runs, and is a record, CircuitJob. A
-- thread's request to the server is one move with the answer as an argument. A text test of the
-- code that asks for truth, as of `_job_error_msg`, is a test for None where the code only sets
-- texts that are not empty.
--
-- Not modelled: the network, the file system and the JSON coders; the serialization in
-- qiskit_ibm_provider/qpy, which is a copy of qiskit's; the Jupyter tools and the plots; the
-- remaining methods of the provider and of the jobs, the other API clients, the push of the
-- late scheduler and the dynamical decoupling. `assemble` of qiskit, Python's `str.upper` and
-- the URL parser are arguments of the definitions that use them, as are the server's pages, the
-- questions to the graph of a circuit, the close codes of the websocket library and the
-- building of a hub.
pub mod Accounts
pub mod Backend
pub mod Common
pub mod Instance
pub mod Jobs
pub mod Service
pub mod Transpiler
pub mod Utils
pub mod Websocket
