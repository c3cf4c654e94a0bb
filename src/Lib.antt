-- ===== src/Lib.antt =====
-- squall: a model of the parts of squall that decide when a GPU replica is started, kept, stopped
-- and deleted, and what the proxy does with a request meanwhile.
--
-- The program has a controller (internal/controller/squall), which reconciles Model resources
-- (api/squall/v1alpha1) with runs on a dstack server (internal/dstack), and a proxy (internal/proxy),
-- which forwards or holds requests, patches demand onto a Model, and reports its activity. The
-- controller gathers the reports of all proxy replicas into idle evidence, which with the run that
-- it observed and the Model's status goes into one pure decision; a sweep looks for runs that no
-- Model owns, and a finalizer tears a deleted Model's run down.
--
-- The modules, and the code that each is about:
--   Common           Boolean tests, lists and association lists; Common/Time has Go's instants
--                    and int64 durations, with the wrap-around of arithmetic on them.
--   Api              api/squall/v1alpha1: Model, its spec, status and conditions. Api/Conditions is
--                    what the code relies on of the library functions on a list of conditions,
--                    Api/Price how price.go reads and writes a price.
--   Dstack           internal/dstack/client.go: Run, IsTerminal, outcomes of calls. Dstack/Probes
--                    is probes.go, Dstack/Errors errors.go, Dstack/Wire what is sent for a run and
--                    read of one (wire.go and http.go). Dstack/Http has the client's operations as
--                    programs that ask a server: Http/Runs is Apply, Get, Stop, Delete, ListRuns,
--                    Http/Fleets BackendConfigured, HasFleetFor, EnsureFleet. Dstack/Mock is the
--                    fake server of mock/mock.go, with an abstract view of a name in Mock/Refines,
--                    and Mock/Http its routes (mock/http.go): run_with joins client and server.
--   Controller/Phase phase.go: Decide is decide, sleepDue sleep_due, and so on; its children have
--                    the deadlines, the uncontrolled deadline, the flips to 0 and the wakes.
--   Controller/Activity  activity.go: aggregateActivity is aggregate_activity, its loop visit.
--   Controller/Observe   observe and freshSuccess of model_controller.go; Controller/Journal its
--                        updateActivityStatus; Controller/Actuation its status after an Apply and
--                        applyDurationsFor; Controller/Refusal its recovery from a refused
--                        override; Controller/Preflight preflight.go.
--   Controller/Reconcile Reconcile of model_controller.go: reconcile, and act from Decide's answer on.
--                        Controller/World has what a pass asks and is answered; Controller/Opening
--                        its first half up to Decide and checkSchedulable, Controller/Closing the
--                        conditions, the check of the served model and the requeue. Its children are
--                        about the Applies, the errors, the run's name, the pace of recreation and what
--                        a flip to 0 sends over the wire.
--   Controller/Failure   reportProvisioningCondition; Controller/Schedulable checkSchedulable, with
--                        Price.Validate of price.go; Controller/Gather gatherActivity.
--   Controller/Secrets   secretenv.go, sshkey.go and applyEnvFor; Controller/Engine engine.go.
--   Controller/Sleep     Decide on the evidence of aggregateActivity.
--   Controller/Validation model_validation.go; Controller/Ownership runname.go and ownership.go.
--   Controller/Served    the matching rules of served.go.
--   Controller/Reaper    reaper.go: Sweep is sweep, its loop sweep_runs.
--   Controller/Finalizer finalizer.go: reconcileDelete is reconcile_delete.
--   Proxy/Decision   decision.go and the classification in attempt.go.
--   Proxy/Tracker    activity.go: Begin, its Done, Success, Failure and Report as steps.
--   Proxy/Demand     demand.go: Signal. Proxy/Hold: Await of hold.go.
--   Proxy/Cache      cache.go: the cache and its subscribers. Proxy/Handler: handler.go, from the
--                    cache's answer to what a request records of the replica; Proxy/Request is
--                    what it tells the tracker, Proxy/Forward one try of attempt.go
--                    with the URL of backend.go, Proxy/Buffer the buffering of bodies
--                    there. Proxy/Tunnels: sshbackend.go, its tunnels with their streams.
--   Examples         the theorems at concrete inputs.
--
-- Instants are numbers of nanoseconds since the zero Time, so that 0 is the Time for which IsZero
-- holds; durations are int64 values as integers, and a sum that can overflow wraps. All loops are
-- structural recursion over lists, so there is no fuel; the loop of retryForward is a recursion
-- over its rounds, and Proxy/Handler/Rounds is about how many are enough. What comes from outside
-- (the API server, dstack, the clock, the proxies' answers, the events of a select) is an
-- argument. A section under a mutex is one step, and so are a tunnel's retire and release in
-- Proxy/Tunnels; Proxy/Tunnels/Races has their atomic accesses as separate steps.
--
-- Not modelled: HTTP, the SSH protocol, the texts of JSON (what encoding/json reads and writes is
-- an argument, with the laws that are needed named), floats, TemplateBackend, logging, metrics,
-- the commands, generated code, and the handler's calls of Signal. The texts of messages are names
-- or left out, except those of the Provisioning condition, which the code compares.
pub mod Common
pub mod Api
pub mod Dstack
pub mod Controller
pub mod Proxy
mod Examples
