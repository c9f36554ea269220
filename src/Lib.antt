-- ===== src/Lib.antt =====
-- PandaStack: a platform that runs sandboxes as micro virtual machines on a fleet of hosts. This
-- library models the parts that decide who owns what, which bytes a guest reads, and where work
-- goes.
--
-- An API server (api/) places each sandbox or volume on an agent with the scheduler; the agent
-- (agent/) gives the sandbox a network slot from a local ledger, streams its disk and its memory
-- in chunks, talks to a daemon in the guest over framed messages, and squeezes or freezes cold
-- sandboxes when the host runs short of memory. The API server also keeps the archives of managed
-- databases, and tells the successive owners of each apart.
--
--  SlotStore   agent/internal/slotstore/slotstore.go, the ledger of network slots. The table is a
--              list of rows, each SQL statement a function on it (Rows), and any statement may
--              fail: the argument `Faults` says which. `view` (View) is the abstract ledger, a
--              map from slots to owners.
--  Stream      agent/internal/diskstream/header.go, resolver.go, govsource.go and sharedcache.go,
--              agent/internal/memstream/header.go. Disk and Mem are the headers and their codecs,
--              Build the scan of an image, Resolver the reads through a verified cache (Calls has
--              its histories), Egress the governor of what is fetched, Shared the cache of a host
--              with its flushes and crashes. The chunk source, SHA-256 and what the calls of the
--              cache file do are parameters.
--  Scheduler   api/internal/scheduler/scheduler.go. Data, Reserve and Choose are `Pick`, Leases
--              the lease cache, AgentList the cached `List`. Floats, `sort.Slice` and the
--              database are parameters; what is asked of them stands in WeakOrder and SortsFirst.
--  NetPool     agent/internal/network/pool.go and natid.go, the network of each sandbox over the
--              slot ledger. Carve is the addresses of a slot, Pool the world (ledger, main store,
--              kernel, parked slots) and `ReleaseNATID` as the list of its writes, Allocate the
--              allocations, Orphans the sweep at boot. The kernel is the interface `Kernel`, what
--              is asked of it `KernelLaws` (Release).
--  Host        the limits of a host. Headroom is agent/internal/api/volumes_headroom.go, Growth
--              and Sweep agent/internal/sandbox/volume_autogrow.go, Admission
--              agent/internal/sandbox/admission.go with the sums of manager.go under it.
--  Faults      agent/internal/uffd/faultretry.go, the retry of page faults.
--  Fencing     api/cmd/api/db_fencing.go. Generations, Leases, Breaker, Wal and Partials follow
--              its sections.
--  Wire        agent/internal/guest/vsockwire/proto.go, the frames between host and guest.
--  Pressure    agent/internal/sandbox/pressure.go, the ladder of squeezes and freezes.
--  Common      shared tests, lists, texts and signed integers.
--
-- Each Examples module runs the code on small inputs where the hypotheses of the theorems hold.
--
-- Bounds: uint32 and uint64 wrap round where the code computes with them; the theorems on chunks
-- take an image and a chunk size below 2^62 together (Sized), where no 64-bit number of the
-- header code overflows. The shift of faultretry.go is an int64 with its wrap-around, and so are
-- the differences of WAL segments. Go's `int` and `int64` are otherwise unbounded. Every loop but
-- one is structural recursion on the data or on the number of rounds that the code has computed;
-- `retry_loop` runs on fuel, and budget + 2 rounds are enough, since the clock moves on by a
-- nanosecond at least in each.
--
-- Not modelled: opening, reading and writing files, the SQL engine beyond the statements used,
-- HTTP, JSON, the commands that set up devices, the interleaving of goroutines (calls are taken
-- one after the other, as the mutexes and the single database connection order them; in Egress
-- the two locked sections of a read are steps of their own), the waiting of one fetch on another
-- in the resolver, the refill of parked slots, and the parts of the program that are not listed
-- above. The code does not read the outcome of the destruction of a namespace or TAP; `works` of
-- KernelLaws says whether one goes through, and the theorems that need it to say so.
pub mod Common
pub mod SlotStore
pub mod Stream
pub mod Scheduler
pub mod Faults
pub mod Fencing
pub mod Host
pub mod Wire
pub mod NetPool
pub mod Pressure
