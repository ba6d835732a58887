-- ===== src/Lib.antt =====
-- IPStat counts the traffic of the users of a gateway, and decides what they may use. Collecting
-- plugins hand each packet or proxy request to three functions: `users_auth` finds the user,
-- `users_autz` decides by the user's rules and by hooks of other plugins, and `users_acct` adds
-- the length to the sums of the rules and of the user. Aggregating plugins keep further sums in
-- balanced trees until a scheduler has them written to the database. Policy and limit plugins are
-- hooks of the authorisation; they keep lists of the database's tables, which the scheduler has
-- them synchronise.
--
-- Gtree: src/gtree.c and include/gtree.h. `node_insert` is `i_tree_node_insert`, and so on; `Tree`
-- is a pointer to an `ITree_Node`; `none` is a null pointer that is followed. Gtree/Balance,
-- Insert and Size are about heights, Entries, Refine and Table about the contents, Grown about the
-- height after insertions, Walk about the traversals, Destroy about what is freed.
-- Inet: src/inet.c. Addresses, ports and masks are numbers, and arithmetic wraps as the C types
-- do; an address is a list of bytes where the source compares bytes. Inet/Mask and Inet/Ports
-- prove what the tests mean.
-- CoreUsers: src/core_users.c, include/core_users.h and the structures of include/types.h.
-- CoreUsers/Data has the structures, Table the list of users, Authn `users_auth`, Rules the test
-- of one rule, Authz `users_autz`, Acct `users_acct`, Export the export of the sums to the
-- database, Hooks the registration of hooks, Load and Sync the synchronisation of rules and users
-- with the database; the other children prove. CoreUsers/Ledger says what the export relies on in
-- the database, whose statements run on two sessions of which only one has transactions; `none` is
-- the null pointer of a row or a price that is not there. The hooks of plugins are a parameter,
-- `Hooks`: a function of the hook's address.
-- Store: the functions of include/store.h that the clients call, over the state of the database
-- server, which is a parameter.
-- FuncTime: src/func_time.c. FuncTime/Account is about `time_acct`, Sync and Drain about
-- `time_sync`, Trace about every order of the two.
-- FuncIp: src/func_ip.c. FuncIp/Account is about `ip_acct`, Sync and Stuck about `ip_sync`.
-- FuncSquid: src/func_squid.c. FuncSquid/Sync and Trace are about every order of its calls, Drain
-- about a database that accepts everything.
-- Misc: the argument parser of src/misc.c, which the reader of the proxy's lines calls. Misc/Words
-- says which words it finds.
-- Sched: src/sched.c. Sched/Due follows a line of text from the module that registers it to the
-- minute it is due; Sched/Jobs is about the list of jobs.
-- Mirror: what the plugins have in common that keep lists of the database's tables in memory,
-- ipstat_system_time_policy/main.c, src/ipstat_url_policy.c, ipstat_system_group_limit/main.c and
-- ipstat_system_users_group_limit/main.c: nine copies of one set of functions, which a `Kind`
-- tells apart. `find_node`, `delete_node` are `g_list_find_custom`, `g_list_remove` of
-- src/glist.c; `insert_node`, `update_node`, `sync_table`, `init_table` are `insert_`, `update_`,
-- `sync_`, `init_` and the name of a list. Mirror/Law says what is asked of a kind and of a
-- database that answers; Find, Settle, Row, Rows, Expire, Shows and Mirrors prove what a
-- synchronisation leaves, First compares it with the loading at the start.
-- PolicyList: the lists of policies of both policy plugins.
-- TimePolicy: ipstat_system_time_policy/main.c. A child for each list; Autz is the hook, Sync what
-- the synchronised users answer.
-- UrlPolicy: src/ipstat_url_policy.c. Users and Patterns are the lists, Autz is `autz_url_policy`;
-- `regcomp` and `regexec` are a parameter.
-- Tasks: src/tasks.c. Tasks/Once is about the transactions with their four tries, Tasks/Check
-- about `task_check_limit`.
-- LimitList: what the two group limit plugins have in common; GroupLimit and UsersGroupLimit are
-- the plugins. LimitList/Sync is about `sync_limits`, Traffic about the export, Spend and the two
-- Enforce about what is permitted. Store/Log says what FuncTime and FuncIp rely on in the
-- database: a refused statement changes nothing, an accepted one does what it says, which for a
-- 32-bit column that overflows is the server's strict mode. Store/Small is a database for tests.
-- Base: shared names, signed integers, `memcmp` and orders, and results that may be faults.
--
-- A comparison function is an instance argument with the laws of an order; `memcmp` has them. What
-- `malloc` returns is a Boolean argument where the code goes on after a failure. Every function is
-- modelled as it runs when no other thread writes; of the locks only the one that FuncIp can keep
-- for good is part of a state. Recursion is structural; the only bounds are that of `sprintf`,
-- where the number itself is enough, that of the loop of `ip_parse_arg`, where the number of bytes
-- left is enough since each turn reads one, and the counts of tries of `ip_traverse_sync`, of
-- `squid_traverse_sync` and of the tasks, which are the program's own. Not modelled: the database,
-- the network, logging and printing, the amount that a price makes, and the files that the
-- manifest lists as not modelled.
pub mod Base
pub mod Gtree
pub mod Inet
pub mod CoreUsers
pub mod Store
pub mod Mirror
pub mod PolicyList
pub mod TimePolicy
pub mod UrlPolicy
pub mod Tasks
pub mod LimitList
pub mod GroupLimit
pub mod UsersGroupLimit
pub mod FuncTime
pub mod FuncIp
pub mod FuncSquid
pub mod Misc
pub mod Sched
