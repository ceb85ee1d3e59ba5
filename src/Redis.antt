-- ===== src/Redis.antt =====
-- The Redis server and its client library, which are not in the repository: what the program asks
-- of `redis.asyncio`, and the documented behaviour of the commands on keys (Laws) and on lists
-- (Lists), with a server that never fails (Memory) and one that cannot be reached (Offline). Held says
-- for how long a claimed key stays claimed. Times are milliseconds, time-to-live arguments are
-- seconds, as in the calls. A stored value is the number whose decimal text the program stores ("1"
-- for a flag). A call that raises is `none`, and leaves the server as it was.
pub mod Laws
pub mod Memory
pub mod Offline
pub mod Lists
pub mod Held
pub mod Queues
