-- ===== src/Lib.antt =====
-- A model of the core of xha, the high-availability daemon of a pool of hosts: the State Manager,
-- which decides who is in the pool's liveset, who may join it and who survives a fault, and the lock
-- manager, by which the hosts elect a master.
--
-- Each host runs a daemon. Its heartbeat thread and its state-file thread publish this host's view
-- and collect those of the others in common objects (COM_DATA_HB, COM_DATA_SF); the State Manager
-- reads these, keeps its own object (COM_DATA_SM) and its private `smvar`, and calls the other parts.
-- The common objects, `smvar` and the calls made are one record, Daemon of Data. An operation of
-- daemon/sm.c is a function on it, named as in the code in lower case.
--
-- HostMap: the bitmaps of include/sm.h and the macros on them, as arrays of 32-bit words.
-- Config: the values of include/config.h that the decisions read.
-- Data: the records of include/sm.h and `smvar`.
-- Sm.Membership: is_all_hosts_up, is_empty_liveset, am_I_in_new_liveset, form_new_liveset.
-- Sm.Partition: get_partition_size, get_partition_score, am_I_in_largest_partition.
-- Sm.Domain: update_sfdomain. Sm.Signals: the signals between threads, sm_wait_signals_sm_hb_sf and
-- the callbacks on release of an object. Sm.Control: the small steps on the common objects.
-- Sm.Fault: start_fh, wait_fh_event. Sm.Join: process_join_request. Sm.Waits: the loops of waits, and
-- join. Sm.Survival: test_Survival_Rule, surviving_by_SR2. Sm.View and Sm.Consistent:
-- wait_until_all_hosts_have_consistent_view. Sm.Handler: fault_handler and its rendezvous.
-- Sm.Start: test_Start_Criteria and the State Manager's thread. Sm.Worker: sm_worker.
-- LockMgr: the round of lock_mgr of daemon/lock_mgr.c, by which the hosts elect the pool's master;
-- LockMgr.Request: the calls that request and cancel the lock.
-- HostWeight: the table of lib/weightio.c and daemon/hostweight.c, whose sum is the host's weight in
-- the choice of a partition; HostWeight.Text its file, HostWeight.Command
-- the command that sets an entry.
-- Heartbeat: the packet and the state of daemon/heartbeat.c; Heartbeat.Domain: update_hbdomain;
-- Heartbeat.Send: send_hb; Heartbeat.Receive: receive_hb and is_valid_hb; Heartbeat.Thread: a turn of
-- the receiver's loop.
-- StateFile: the sections of include/statefile.h; StateFile.Io: the checks of lib/statefileio.c;
-- StateFile.Write: write_hostspecific and the setters of daemon/statefile.c; StateFile.Read: readsf
-- and a round of sfthread.
-- Com: the common objects of daemon/com.c and the critical sections of the calls that lock them;
-- Com.Table: the table of objects and handles; Com.Threads: threads at one object's lock, as steps.
-- Watchdog: the hypercall of daemon/watchdog.c and the hypervisor's side in hypervisor_patch;
-- Watchdog.Calls: its calls. XapiMon: a turn of the monitor of daemon/xapi_mon.c, and the restarts.
-- Script: the requests of daemon/sc_func.c that read or set the pool's state; Script.Query:
-- query_liveset; Script.Commands: the other requests. BondMon: the monitor of daemon/bond_mon.c.
-- ConfigFile: the walks of lib/config.c over the elements of the configuration file.
-- Examples: concrete pools on which the theorems are applied.
--
-- A loop over the hosts is a recursion on their number. A loop of waits takes the changes that other
-- threads make, one for each wait that a signal ends; after the last the time is up, and a wait
-- without a limit gives `none`; the comparison of the views takes the clock of each round as well. The
-- loop that merges views runs on one round more than there are
-- hosts, which is enough since each round removes a host. A bound of 64 hosts is MAX_HOST_NUM of
-- include/xha.h. Between two waits the State Manager's thread is taken to run alone, though other
-- threads may run between two of its locks. The fault injection of daemon/fist.c is off.
--
-- What comes from outside the repository is a parameter: sprintf, sscanf and BUFSIZ for the weight
-- file, strncasecmp on UUIDs, libxml2's elements, strtol, getaddrinfo, strncmp and qsort for the
-- configuration, the compiler's layout of a section and its values of characters, and the
-- rwlock of pthreads with its laws.
-- What a read or a receipt gives is an argument. sf_read's loop runs on the list of what read() gives;
-- one read for each byte is enough.
--
-- Not modelled: the pacing and sockets of the heartbeat's threads, the pacing of the state-file
-- thread and the clock that measures its accesses, the sockets of the script service, the
-- parsing of XML, logging, and the other command-line tools; they are I/O, process control or
-- text, or are yet to be done.
pub mod Prelude
pub mod HostMap
pub mod Com
pub mod Config
pub mod Data
pub mod Heartbeat
pub mod HostWeight
pub mod LockMgr
pub mod Script
pub mod BondMon
pub mod ConfigFile
pub mod Sm
pub mod StateFile
pub mod Watchdog
pub mod XapiMon
pub mod Examples
