-- ===== src/Lib.antt =====
-- fleetbox starts small clusters of virtual machines. A command (cmd/fleetbox) resolves the names it is
-- given and calls the orchestrator (internal/orchestrator), which keeps each member's files in the store
-- (internal/store) and asks one helper process per cluster, the holder (internal/holder), to reserve an
-- address for a member and to boot it. On Linux the holder's network is a bridge with taps, an nft table
-- and a write-ahead record (internal/backend/cloudhypervisor).
--
-- Base: Boolean tests, lists, byte strings, results, decimal numbers, sets and maps as lists, objects
-- behind positions.
--
-- Store (internal/store/store.go): Store.Names has the cluster that a member's name belongs to
-- (clusterName), Store.Config what is stored of a member, and Store.Tree the two-level tree of
-- directories with EnsureDir, Create, Save, Load, Exists, Delete and List, under names that are one
-- segment of a path. The disk itself does not fail. Store.Tree.Replay and Store.Tree.Refine relate the tree to a map.
--
-- Copy (internal/sshkey/copy.go): Copy.Shell has the commands that run in the guest, from the directory
-- and the last element of a path, and a reader of words as a POSIX shell has it. Copy.Paths has renameTop,
-- safeJoin and checkSymlink, Copy.Disk the calls of package os over a disk, which is what stands at each
-- place, and Copy.Extract extractTar with its other helpers. Where a link leads, what the umask leaves of
-- a mode and whether a directory is empty are parameters, the last with the hypothesis that a directory
-- called empty holds nothing. The destination is an absolute path without links.
--
-- Cli: the member names of `up` (Cli.Members, cmd/fleetbox/up.go, clusterMembers) and the targets of `down`
-- and `rm` (Cli.Targets, cmd/fleetbox/targets.go, resolveTargets). A name is a list of bytes.
--
-- Holder (internal/holder/holder.go, internal/control/wire.go): Holder.State is the process's state. A
-- member is a position in a list of objects, and the registry leads from a name to it, so that a stopped
-- member and its successor of the same name are two objects. Holder.Members holds register, stopMember,
-- stopAll and the mark functions, Holder.Boot createNetwork, reserve and bootMember, Holder.Server
-- handleConn. Each is a function from state to state; a boot is in pieces, for requests come between
-- them. What the backend and the network answer is an argument. Holder.Run is Run, from the names on the
-- command line to the end, with watchParent, handleBindConn and triggerBoundShutdown. Holder.System serves
-- requests at the same time: a step relation in which a boot and the creation of the network are in
-- pieces and every other request is one step, and in which no two boots of one member are in flight. Closing a
-- network and stopping a machine succeed; a Start that fails may have its machine's process up. Holder.System.Race takes stopMember apart.
-- Holder.Life serves the requests of a lone member in their order.
--
-- Network (internal/backend/cloudhypervisor): Network.Addr has addresses as 32-bit numbers; Network.Pool
-- is Reserve and lastAddr of network.go, Network.Subnets detectFreeIPv4Subnet. The search for an address
-- runs on as many rounds as the prefix has addresses, the one for a network on 256. Network.Host has the
-- links, nft tables, record files and forwarding values of a host, and createTap, deleteTap and Close of
-- network.go; Network.Teardown the sweep over the networks of dead owners and the enabling of forwarding
-- (network.go, forwarding.go, netstate.go), and Network.Create is CreateNetwork and installFirewall.
-- Network.Create.Flags follows the forwarding values over networks that come and go. Which calls of the kernel and the file system fail is an
-- argument of every one of them.
--
-- Control (internal/control/control.go): Control.Client has IsRunning and GetStatus over what a client sees
-- at one instant, the processes and the sockets' answers being arguments; Control.Polling the loops of
-- WaitMembers and Stop, on fuel: 3602 rounds of half a second pass the longest download of half an hour,
-- and 61 the half minute of a stop. Control.Served puts a client and a holder together. Control.Session has
-- Spawn, dialBind, bindHandshake and Session.Close, over the rounds that begin before the deadline of dialBind,
-- and what the holder does with the connections of these rounds.
-- Control.Send has dialHolder and SendCommand; a failed dial is a tenth of a second at least, so that two
-- rounds above the window's milliseconds are more than enough, and Control.Send.Retry puts it before a holder.
--
-- Kernel (internal/backend/cloudhypervisor/bootextract.go, extract_linux.go): Kernel.Choice has the search
-- for the kernel and the initrd in a guest's disk, Kernel.Reader the block-aligned reader through which
-- they are copied, and Kernel.Files the copies that are kept beside the disk. The guest's file system, the
-- reads of it that fail and what goes wrong with a copy are arguments.
--
-- Orchestrator (internal/orchestrator/orchestrator.go): Orchestrator.Disks has the stored members as a map
-- from name to configuration, Orchestrator.Fixtures toStoreFixtures, Orchestrator.Start startOnNetwork,
-- Orchestrator.Cluster ensureHelper, Add, rollback, Stop, Destroy, StartClusterDetached and AddMember. Which
-- step fails for which member is an argument. A hypothesis on the removal of files says that it does not
-- fail; a creation of a member that fails may leave a config.json.
--
-- Library (fleetbox.go): SetStorageRoot, StartN, StartCluster and Cluster.Add, and the Start of
-- internal/orchestrator, over the same stored members and running machines.
--
-- Not modelled: the machines' processes, images, seed files and the SSH connection, the listing and printing of the commands, and the bindings of other platforms. Locks are not
-- modelled: each function is one critical section or a sequence of them.
mod Base
pub mod Store
pub mod Cli
pub mod Holder
pub mod Network
pub mod Orchestrator
pub mod Library
pub mod Copy
pub mod Control
pub mod Kernel
