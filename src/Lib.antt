-- ===== src/Lib.antt =====
-- The scaling core of clusterman: how the capacity of a pool is changed, which nodes are removed for
-- it, and how a node that is to be removed is drained and terminated.
--
-- The autoscaler asks the pool manager (clusterman/autoscaler/pool_manager.py) for a target capacity. The
-- pool manager constrains the request, distributes it over the resource groups, and chooses nodes to
-- remove where more capacity is up than is wanted. The nodes chosen are sent to the drain queue or are
-- terminated. A draining client (clusterman/draining/queue.py) takes hosts from the drain queue, drains
-- them by way of Mesos or Kubernetes, sends them to the termination queue, and terminates the hosts that
-- it takes from there; warnings of AWS about spot instances come in by a third queue. The
-- node migration batch (clusterman/batch/node_migration.py) starts worker processes that send the nodes of
-- a pool to the drain queue, for an event or for their uptime, and watches them.
--
-- Files, and the code they are about:
--   Base                 lists, integers, dictionaries, sorting and tests that the modules share
--   Resources            clusterman/util.py: ClustermanResources, SignalResourceRequest
--   Interfaces           clusterman/interfaces/types.py
--   PoolManager/Defs     the state of a PoolManager, its limits and its resource groups
--   PoolManager/Capacity target_capacity, fulfilled_capacity, _constrain_target_capacity
--   PoolManager/Targets  _compute_new_resource_group_targets
--   PoolManager/Nodes    get_node_metadatas, _is_node_killable, _prioritize_killable_nodes
--   PoolManager/Prune    _choose_nodes_to_prune
--   PoolManager/Modify   modify_target_capacity, prune_excess_fulfilled_capacity; in Modify/Orphans
--                        terminate_expired_orphan_instances, in Modify/Goal a change as a whole
--   Draining/Defs        Host, the messages of the queues, and the effects of a DrainingClient
--   Draining/Lookup      host_from_instance_id
--   Draining/Drain       process_drain_queue, _drain_k8s_host, clusterman/draining/kubernetes.py
--   Draining/Warning     process_warning_queue, get_warned_host
--   Draining/Termination process_termination_queue, terminate_host
--   Migration/Batch      clusterman/batch/node_migration.py: NodeMigration, its workers and events
--   Migration/Worker     clusterman/migration/worker.py: _monitor_pool_health, _drain_node_selection
--   Migration/Settings   clusterman/migration/settings.py: portions of a pool, the setup of a worker
--   Migration/Event      event_migration_worker of clusterman/migration/worker.py
--   Migration/Condition  clusterman/migration/event.py and event_enums.py: conditions and the
--                        custom resources of events
--   Autoscaler           clusterman/autoscaler/autoscaler.py: _compute_target_capacity
--   Autoscaler/Run       Autoscaler.run; in Autoscaler/History the historical weights of resources
--   Aws/AutoScaling      clusterman/aws/auto_scaling_resource_group.py
--   Aws/Termination      terminate_instances_by_id and its decorator, clusterman/aws/aws_resource_group.py
--   Math/Piecewise       clusterman/math/piecewise.py: PiecewiseConstantFunction
--   Math/Piecewise/Sequence values, integrals and integral; in Sequence/Cache the cache of values
--   Math/SortedDict      the SortedDict that it is given, and what its documentation promises
--   Kubernetes/Defs      pods, nodes, taints, and the state of a KubernetesClusterConnector
--   Kubernetes/Util      clusterman/kubernetes/util.py
--   Kubernetes/Pods      _get_pods_info and the tests on pods
--   Kubernetes/Connector reload_state, get_agent_metadata, has_enough_capacity_for_pods
--   Kubernetes/Drain     cordon_node, uncordon_node, _evict_or_delete_pods, drain_node
--   Simulator/Instances  clusterman/simulator/simulator.py: the instances, their cpus and their cost
--   Simulator/Cluster    clusterman/simulator/simulated_aws_cluster.py
--   Simulator/Events     clusterman/simulator/event.py, and the queue and the loop of a Simulator
--   Simulator/Data       get_data and total_cost of a Simulator
--   Examples             data on which the theorems are applied
--
-- Names are those of the source. A method is a function of the state it reads, and what it does
-- outside is a list of calls or effects in their order: a message sent or deleted, a group modified, an
-- instance terminated. An exception is a value: `err` of the pool manager's `Result`, `none` or `raised`
-- of the draining client. A float is an integer that counts thousandths, so the rounding of floating
-- point is not modelled; texts that stand for times are integers.
--
-- Parameters: SortedDict of sortedcontainers; heapq; which results functools.lru_cache drops; the delay before a simulated instance joins; the
-- Kubernetes API, with its exceptions as answers; the reading of quantities by humanfriendly; the
-- agent behind an address, which the cluster connector knows; the clock; the configuration; what EC2,
-- DNS, the Kubernetes connector and the queues answer in a call. Sending and deleting a message is
-- taken not to fail. A resource group answers `modify_target_capacity` and `terminate_instances_by_id`
-- without changing the state that the pool manager reads in the same call.
--
-- The loops over the events of a simulation and over the range of `values` and `integrals` have the
-- length of the queue and the width of the range as fuel. Three more loops run on fuel. The batches of
-- a termination are at most as many as the instances. The chunks of nodes that a migration worker
-- drains are at most as many as the selected nodes, since a chunk is not empty, and that is their
-- fuel. For the distribution of targets it is the distance of the sum from the goal in thousandths,
-- and one more: each round moves the sum by a whole unit towards the goal, so the loop ends before the
-- fuel does.
--
-- The autoscaler computes with exact fractions of natural numbers (Base/Fraction) in place of floats.
--
-- Not modelled: the cache of integrals, the signals, the Mesos connector, the calls that list, mark and create migration
-- resources, the spot fleets and the scaling options of AWS groups, the loop of the uptime worker, the simulated spot fleet with its pool manager, the comparison of simulators,
-- reports and command line.
pub mod Autoscaler
pub mod Aws
pub mod Base
pub mod Draining
pub mod Interfaces
pub mod Kubernetes
pub mod Math
pub mod Migration
pub mod PoolManager
pub mod Resources
pub mod Simulator
