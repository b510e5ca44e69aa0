-- ===== src/Lib.antt =====
-- The driver for Morse Micro HaLow radios, as far as its own C code goes (src/*.c of the
-- repository): the environment that the vendor's library, morselib, runs in, and the glue around
-- it.
--
-- The parts, and how they are modelled.
--
-- * Heap is the allocator of src/mm_halow_osal.c (mm_halow_osal_init, _malloc, _free, _deinit and
--   mmosal_calloc_, mmosal_realloc_). Its list of blocks, in address order, is a list of records
--   with the addresses written out. Heap.Layout says what a list that tiles the pool is, Heap.Live
--   maps each pointer that is given out to the room behind it, Heap.Calls runs sequences of calls,
--   Heap.Pool says when the pool is held.
-- * Sched is src/mm_halow_sched.c: the table of four tasks, the list of those that exist, the claim
--   on the transceiver, the passes of mm_halow_sched_run, and mm_halow_sched_wait. Its children
--   hold one activity each: Tasks, Reap, Lifetime (the lives of tasks, with their stacks in Heap),
--   Run, Service, Wait, and Yield, which puts the wait on top of the run. Sched.Switch is
--   mm_halow_context_switch, instruction by instruction, on the registers that it touches and the
--   memory behind them. Sched.Run.Clocked, Sched.Run.Budget and Sched.Yield.Clocked follow the
--   clock through a run and a wait on it.
-- * Osal is the rest of src/mm_halow_osal.c: Osal.Queue (mmosal_queue_*; Osal.Queue.Waits follows
--   what others do to a queue while a pop or a push waits), Osal.Sync (critical sections,
--   mmosal_mutex_*, mmosal_sem_*, mmosal_semb_*, notifications), Osal.Timers (mmosal_timer_*,
--   mm_halow_osal_timer_poll), Osal.Tasks (mmosal_task_sleep, mmosal_task_join, the waits of the
--   semaphores, mmosal_log_failure_info), Osal.Log (mmosal_printf) and Osal.Objects (the create and
--   delete calls, on Heap). What these wait for is a condition that the wait of Sched polls;
--   Osal.Calls puts each of them on the scheduler itself, and Osal.Calls.Gives has the calls that
--   give or take without a wait.
-- * Pktmem is src/mm_halow_pktmem.c: the counters of packets in flight with pause and resume
--   (Pktmem.Flow), and the reserved command buffers (Pktmem.Commands). Packets and their lists are
--   morselib's, and a parameter with the lengths it documents.
-- * Ctrl is src/mm_halow_ctrl.c: Ctrl.Bringup (mm_halow_init, mm_halow_deinit,
--   mm_halow_wifi_set_up, the callbacks on status, link state and fatal errors), Ctrl.Scan
--   (mm_halow_scan_cache_add; Ctrl.Scan.Sweep is mm_halow_wifi_scan_cached, on the wait of Sched),
--   Ctrl.Stations (mm_halow_ap_sta_status_cb; its View forgets the order of the list), Ctrl.Radio
--   (mm_halow_wifi_set_radio and the other settings; Ctrl.Radio.Apply is mm_halow_apply_radio),
--   Ctrl.Access (mm_halow_wifi_ap_set_* and the arguments of mm_halow_ap_enable), Ctrl.Channels
--   (mm_halow_ap_channel, mm_halow_freq_to_chan), Ctrl.Join (mm_halow_wifi_join), Ctrl.Poll
--   (mm_halow_poll_func, over the runs of Sched, the timers of Osal and the interrupt lines of
--   Hal), Ctrl.Transmit (mm_halow_send_ethernet, with the shared transmit buffer; its Laws say what
--   it relies on, its Driver puts it on Ctrl.Poll, whose Effects and Clocked say what a poll does
--   and how long it takes) and Ctrl.Queries. Bringing up takes the pool from Heap, and shutting down
--   resets Sched.
-- * Hal is src/mm_halow_hal.c: blobs and random numbers (Hal.Ranges), interrupt lines
--   (Hal.Interrupts), and the pins and the bus as the list of what is done to them (Hal.Pins).
-- * Lwip is src/mm_halow_lwip.c: received frames (mm_halow_cb_process_ethernet, Lwip.Frames), link
--   changes, mm_halow_cb_tcpip_init and mm_halow_cb_tcpip_deinit (Lwip.Netifs, Route and Session),
--   mm_halow_netif_output (Lwip.Output, over Ctrl.Transmit). lwIP itself is a parameter with what
--   it documents.
--
-- Addresses and sizes are numbers below 2^32, for a 32-bit target, with the wrap of an unsigned
-- operation written out. Pointers to tasks are the indices of their slots. Atomic sections make the
-- code between them one step, so they leave no trace in a definition.
--
-- A pointer that may be NULL is an option, with none for NULL. A pointer that mm_halow_osal_free or
-- mmosal_realloc_ was never given by the allocator, through which C would write into whatever is
-- there, changes nothing in the model; what is said of the heap's headers is said of calls that free
-- and resize only what is handed out. That a context claims the transceiver at most 255 times over,
-- and that only its holder releases a mutex, is for the callers to see to, since the code does not
-- test it, and is a premise where it matters.
--
-- What runs outside this code is a parameter: what a task does in its turn, the clock, what happens
-- while a wait is parked. The theorems name what they rely on as hypotheses. The clock may wrap;
-- only a single step of more than 2^30 ms is excluded, and where the steps of a run add up, one of
-- more than 2^25 ms.
--
-- Loops over lists are structural recursion. mm_halow_sched_run's walk has the number of slots for
-- fuel, since each turn may change the list that it walks, and its rounds are bounded by
-- MM_HALOW_SCHED_PASSES. mm_halow_osal_timer_poll's has the number of timers. mm_halow_sched_wait's
-- loop takes fuel; theorems say how much is enough for a wait with a timeout, and for any wait
-- during teardown; outside of it a wait for ever has none. mm_halow_send_ethernet's loop takes fuel
-- likewise, for MM_HALOW_TX_READY_MS.
--
-- Not modelled: the stack limit register, the text that printf writes, and the vendor's
-- library, which is a git submodule. Tests and tools are left out.
pub mod Base
pub mod Heap
pub mod Sched
pub mod Osal
pub mod Pktmem
pub mod Ctrl
pub mod Hal
pub mod Lwip
