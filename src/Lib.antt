-- ===== src/Lib.antt =====
-- Models of the C code of the repository: the folder trees of Zaliczeniowe_2, the producer and
-- consumer, the readers and writers, and the primes of Lab_9, and the elves and reindeers of
-- Lab_10; and of a part of the Collatz teams, in C++, of Zaliczeniowe_3.
--
-- The program keeps a tree of folders. A folder's children stand in a hash map from names to nodes
-- (HashMap.c); the map is shared by threads behind a readers-writers protocol (SafeHashMap.c); paths
-- are C strings that path_utils.c checks, splits, compares and prints.
--
-- Parts and files, with the names of the functions kept:
-- - CString: C strings as lists of bytes, and the functions of <string.h> that the sources call.
-- - HashMap: Zaliczeniowe_2/HashMap.c. The eight linked lists are lists of pairs, the null pointer is
--   `none`. The iteration runs on fuel; one more than the number of pairs is enough.
-- - Paths: Zaliczeniowe_2/path_utils.c. A pointer into a string is the rest of the string. The loops
--   run on fuel, one more than the length of the string. A failed assertion, a read before the
--   string and an array that is too short are results of their own.
-- - SafeHashMap: Zaliczeniowe_2/SafeHashMap.c. A stretch of a protocol under the mutex is one
--   function; Threads interleaves any number of threads, with signals and with wake-ups that have no
--   signal. A call on the map is two steps, a read of the map and a write.
-- - Store, Node, Tree: Zaliczeniowe_2/Node.c and Zaliczeniowe_2/Tree.c, as one thread runs their
--   functions alone. A heap is a function from addresses to nodes; a command returns, or waits for
--   a signal that nobody sends, or faults. `tree_move` stands in Tree/Move, in stages. The loop of
--   `process_path` has a round for each byte of the path and one more, which is enough since a name
--   and its slash are at least two bytes. `depth` bounds the loop of `notify_parent_nodes` and the
--   recursion of `node_free`; one more than the height of the tree is enough.
-- - Node/Visits: Zaliczeniowe_2/Node.c again, with any number of threads at one node that is not the root,
--   interleaved, as the functions of Zaliczeniowe_2/Tree.c come to it, with the signals of its protocols
--   and with wake-ups that have no signal. What a thread does above the node and below it is one step.
-- - ProducerConsumer: Lab_9/producer-consumer.c, its buffer and the two threads, interleaved, with their
--   signals and with wake-ups that have no signal.
-- - Gifts: Lab_10/gifts.c, for any values of its macros, its elves and reindeers interleaved. Each call of
--   `sem_wait` and `sem_post` is a step, a semaphore is its value.
-- - ReadersWriters: Lab_9/readers-writers-template.c, its three readers and two writers, interleaved,
--   each with its place, with wake-ups at any time.
-- - Collatz: Zaliczeniowe_3/collatz.hpp and sharedresults.hpp, and of the teams in teams.cpp and
--   teams.hpp `TeamSolo`, and `TeamConstThreads` and `TeamNewThreads` without shared results. InfInt is
--   a vendored library: its operations are a record in Collatz, and what its documentation says of them
--   on natural numbers another in Collatz/Count. Nobody knows a bound for a Collatz sequence: the loops
--   run on fuel, and one more than the steps of the sequence is enough. In Collatz/Threads the threads
--   that share results take turns: each `get` and each `insert`, under its lock, is one step. Pools and
--   processes are not modelled.
-- - Primes: Lab_9/primes.c, for any NUM and LIMIT. The loop over the divisors of a number runs on fuel, the
--   number itself, and the loop over the numbers on LIMIT; both are enough.
-- - Prelude: names passed on from the libraries, Boolean tests, list functions, totals over lists,
--   and `int` as a bit pattern.
--
-- Counters of type `int` wrap at 2 ^ 32, `size_t` at 2 ^ 64. Memory allocation succeeds: where it
-- fails, the sources end the program or do not check. Functions of pthread succeed: where they
-- fail, the program ends. Calls of several threads on one tree are modelled at one node only, not
-- as threads that wait at several nodes. `free` of strings, printing and the reporting of errors
-- are not modelled; nor is Zaliczeniowe_2/Tree_sequential.c, which passes the shared map of a node
-- where a plain map is expected, so that C does not say what it does; nor are the process exercises
-- of Lab_7 to Lab_11, which only make system calls and print, the Java exercises, and the libraries
-- under Zaliczeniowe_3/lib.
pub mod Prelude
pub mod CString
pub mod HashMap
pub mod Paths
pub mod SafeHashMap
pub mod ProducerConsumer
pub mod ReadersWriters
pub mod Store
pub mod Node
pub mod Tree
pub mod Collatz
pub mod Gifts
pub mod Primes
