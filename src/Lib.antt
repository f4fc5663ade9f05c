-- ===== src/Lib.antt =====
-- nanomsg-transport-ofi: a nanomsg transport over libfabric.
--
-- The program (src/transports/ofi). A bound endpoint (bofi.c) accepts connections, a connecting
-- endpoint (cofi.c) keeps one connection alive; each connection is a streaming endpoint (sofi.c),
-- which sends and receives messages and shuts the connection down. Streaming endpoints register the
-- memory that they send through the memory region manager (ofimr.c). A worker pool (ofiw.c) polls the
-- queues of libfabric and feeds their events to the state machines. ofi.c registers the transport and
-- holds its socket options; ofiapi.c wraps libfabric's objects.
--
-- Mr models ofimr.h and ofimr.c, a module for each part: State (the structures), Bank
-- (ofi_mr_unregister, ofi_mr_register, ofi_mr_get_free_bank, ofi_mr_find_bank), Slab (ofi_mr_tryslab),
-- Setup (ofi_mr_init, ofi_mr_term, ofi_mr_mark, ofi_mr_invalidate), Context (ofi_mr_describe,
-- ofi_mr_release). The record Mr is struct ofi_mr_manager with what it acts on: the provider's state,
-- the bytes of memory, the number of live heap blocks. A function that changes it returns the new
-- record beside its return code. Pointers to banks and slabs are indices. Addresses and lengths are
-- natural numbers, so pointer arithmetic does not overflow; the age of a bank wraps at 32 bits. A mutex
-- is its lock count. The functions of libfabric are the record Provider, an argument of the
-- definitions, with a state of its own, so that each call may answer differently.
--
-- Cofi models the state machine of cofi.c: nn_cofi_start_connecting, nn_cofi_critical_error,
-- nn_cofi_shutdown, nn_cofi_handler. Its children say which states follow which (Edges) and how it
-- stops (Stopping). Bofi models bofi.c: Offsets has sofi_offsets and its two functions, Machine has
-- nn_bofi_start_accepting, nn_bofi_reap_sofi, nn_bofi_critical_error and the parts of nn_bofi_shutdown,
-- with ofi_passive_endpoint_open and ofi_passive_endpoint_close of ofiapi.c, and Machine/Handler has
-- nn_bofi_shutdown and nn_bofi_handler. Both machines are functions on the state and the event. What
-- they call is a record Parts, an argument of the definitions: its fields act on a world of any type, so
-- the answer of a call may depend on all that came before. nn_fsm_stop calls the shutdown function at
-- once, as nanomsg does for a running machine. Where nanomsg ends the process, or a pointer is used that
-- is not valid, the outcome is an abort or a fault. An integer of the code that holds an offset is a
-- natural number.
--
-- Options models the socket options of ofi.c and ofi.h: an option is a name, a buffer is a function from
-- the index to the byte, and the layout of an int in memory is the argument IntBytes. Egress models the
-- egress queue of sofi.c. Egress itself has the list of contexts, with the pointers next and prev of
-- struct nn_sofi_out_ctx as indices and NULL as none, and the functions get_context, mark_busy and
-- mark_free of nn_sofi_egress; Sending has those that free, post, send, stage, complete and flush.
-- Count and Balance are about the contexts that are busy, which hold a memory region; Chain, Freed and
-- Front about the sequence that the pointers represent; Total and Complete put both together. The
-- counter of the back-pressure wraps at 32 bits. Links has what doubly linked lists share, and the loops
-- of nn_sofi_init that build them; Start has the queue that nn_sofi_init leaves, if it
-- does not write behind the array of contexts. nn_sofi_egress_flush follows the pointers with fuel, one unit for each
-- context of the array. The result none is a failed assertion, or the use of NULL.
--
-- Ingress models the receive buffers of sofi.c, which are indices, and stand in three lists: free, busy
-- (posted to libfabric) and populated (with a message for nanomsg). Ingress itself has the functions
-- ingress_empty, pop_free, pop_populated, mark_free, mark_busy and mark_populated of nn_sofi, and
-- Receiving those that post, handle, fetch and flush. The bits of ingress_flags are Booleans. A loop
-- over a list has fuel, one unit for each buffer of the array. Pointers, Linking and Lists say how the
-- pointers represent three sequences, Leaving and Moves what each change of a buffer does to them;
-- Draining, Flushing, Posting and Delivering are about the operations, and Start has the buffers that
-- nn_sofi_init leaves.
--
-- Sofi models the machine of sofi.c over Egress and Ingress: Running has nn_sofi_handler, nn_sofi_send
-- and nn_sofi_recv, Closing has nn_sofi_shutdown, Starting has nn_sofi_start_accept and
-- nn_sofi_start_connect. An event is a constructor for each source and type that the code names, with
-- what it carries. The handshake is compiled out (OFI_DISABLE_HANDSHAKE), and the drain timeout is 500.
-- What the machine calls is the record Parts. The queues find the world of these calls in their own
-- field when they are called, and leave it there. A critical error is an outcome of the handler, since
-- nn_fsm_stop then calls the shutdown function with the stop event. Hanging and Ending are about the
-- shutdown, Ticks about the keep-alive ticks.
--
-- Worker models ofiw.c: the workers of a pool with their items, and the functions getworker, term,
-- start, stop, add_cq, add_eq, open_cq, open_eq and remove of nn_ofiw. nn_ofiw_stop is two functions,
-- before and after the wait for the poller thread. Poller has one pass of nn_ofiw_poller_thread over the
-- workers; what a queue gives is an argument. Lock has nn_ofiw_lock_thread, nn_ofiw_unlock_thread and
-- the poller thread as two threads that take one step at a time in any order, with the test of lock_safe at
-- the start of both functions; there is one client, and a step reads and writes at once. Orderly, Handshake and Stopping are about these.
--
-- Endpoint itself models ofi_active_endpoint_open of ofiapi.c, with what libfabric answers as the record Fabric,
-- and what ofi_active_endpoint_close does to the worker; Closing relates the two. Resources models the
-- lists of fabrics and domains of ofiapi.c, which objects join and leave by their addresses: ofi_fabric_open,
-- ofi_fabric_close, ofi_domain_open, ofi_domain_close, and the loop of ofi_term, with fuel for each
-- reference (Ending).
--
-- Keys has the keys under which a streaming endpoint registers memory: a page of 4096 for each offset of
-- the bound endpoint, divided between the auxiliary buffer, the manager and the receive buffers. The product that gives the
-- page wraps around at 32 bits.
--
-- Address models ofi_match_fabric of ofiapi.c. A text is the list of its bytes, strrchr gives what stands
-- before and behind the last separator, and the pointers that the hints keep are records of the allocation
-- they point into and the text there. fi_getinfo is an argument. Cutting and RoundTrip are about the text,
-- Matching about the call.
--
-- Transport models the functions by which nanomsg makes and destroys endpoints: nn_ofi_bind and
-- nn_ofi_connect of ofi.c, the constructors and destructors of cofi.c and bofi.c, and ofi_init and
-- ofi_term of ofiapi.c, over Resources, Address and the two machines. Fabrics and Lasting are about the fabrics that stay, Refusing about an address
-- that is refused.
-- Endpoint/Passive has the passive endpoint, the close of both kinds of endpoint, and the functions of ofi_cm,
-- ofi_sendmsg and ofi_recvmsg. The loop that reads events before a close has fuel; as libfabric documents
-- fi_eq_read, one round is enough (Draining).
--
-- Ingress/Sound and Sofi/Sound are about the receive buffers through the calls; Reaching has the calls on an
-- endpoint in any order. Sofi/Setup models nn_sofi_init and nn_sofi_term: the sizes of the queues as ints of
-- 32 bits and sizes of 64, the keys that are registered, and the chunks that are allocated, of which
-- nn_chunk_free drops one reference, as nanomsg documents it. The memory region manager is a parameter there;
-- its keys are not counted. A write behind the array of contexts leaves no endpoint. Lifetime puts both
-- functions together with the calls between them. Worker/Pacing models the measurement of
-- nn_ofiw_kinstr_per_ms, the pause of the poller thread between passes, and nn_ofiw_pool_init and
-- nn_ofiw_pool_term.
--
-- Not modelled: strcicmp of ofiapi.c, which has no caller; the branches that OFI_USE_WAITSET, OFI_DOMAIN_PER_EP
-- and the handshake would compile in; the transport's table, the printing macros and the clock of
-- platf/osx.c, which carry no logic of the transport. Memory that nn_alloc cannot give ends the process, as
-- the assertions behind it say.
pub mod Address
pub mod Bofi
pub mod Cofi
pub mod Egress
pub mod Endpoint
pub mod Examples
pub mod Ingress
pub mod Keys
pub mod Links
pub mod Mr
pub mod Options
pub mod Prelude
pub mod Resources
pub mod Sofi
pub mod Transport
pub mod Worker
