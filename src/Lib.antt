-- ===== src/Lib.antt =====
-- Sample programs of a book on Windows network programming, as definitions with theorems.
--
-- The programs stand below Windows网络编程补充材料/Samples; paths below are from there.
--
-- * Iocp models chapter06/iocpserver.cpp, an echo server over an I/O completion port.
--   Iocp.State has BUFFER_OBJ, SOCKET_OBJ and LISTEN_OBJ as records and the program's heap, lists
--   and globals as the record Server: a pointer is a number, 0 is NULL, and each kind of object lives
--   in a function from its address. Iocp.Pending is EnqueuePendingOperation and
--   DequeuePendingOperation, Iocp.Accepts InsertPendingAccept and RemovePendingAccept, Iocp.Pools
--   the lookaside lists (GetBufferObj, FreeBufferObj, GetSocketObj, FreeSocketObj), Iocp.Post
--   PostRecv, PostSend and PostAccept, Iocp.Drain ProcessPendingOperations, Iocp.Handler HandleIo
--   and CompletionThread, Iocp.Args ValidateArgs, Iocp.Stats PrintStatistics, and Iocp.Listener the
--   set-up, the events and the scan for stale connections of main. A function of the program becomes
--   a function of the same name on Server, which returns the new state beside its result.
--   Threads meet only at whole handlers: a run is a list of completions, handled one by one.
--   The handlers of Iocp.Handler call those of Iocp.Pending, Iocp.Pools, Iocp.Post and Iocp.Drain;
--   the listening thread shares Iocp.Accepts with them.
-- * Ordered models chapter05/iocp/server/iocpserver.cpp, an echo server with several receives
--   outstanding on each connection, which numbers them and sends the echoes in the order of the
--   numbers. Ordered.State has BUFFER_OBJ and SOCKET_OBJ as records and the heap, the globals and the
--   trace of calls as the record World; the list of early sends, linked through the objects in the
--   program, is the list of their addresses. Ordered.Objects is GetBufferObj, FreeBufferObj,
--   GetSocketObj and FreeSocketObj, Ordered.Post PostRecv, PostSend and PostAccept, Ordered.Sends
--   InsertPendingSend and DoSends, and Ordered.Handler HandleIo and CompletionThread, of which one
--   thread is modelled: the flag that handle_io returns tells whether it left the critical section.
--   Where an allocation fails the process ends: none. A freed object keeps its last contents.
--   Answers of the system and completions of the port are those of Iocp.State and Iocp.Handler. main,
--   ValidateArgs and PrintStatistics of that file are not modelled.
-- * EventSelect models chapter05/WSAEventSelect/server/eventserver.cpp, an echo server whose threads
--   wait for the events of up to 63 sockets each. EventSelect.State has BUFFER_OBJ and SOCKET_OBJ as
--   records, with the queue of a socket as a list of its buffers, and the calls of the system as the
--   record System; EventSelect.Sending is EnqueueBufferObj and SendPendingData, EventSelect.Threads
--   THREAD_OBJ, with its linked list as a list of addresses, InsertSocketObj, RemoveSocketObj,
--   FindSocketObj, RenumberThreadArray, GetThreadObj and AssignToFreeThread, and EventSelect.Handler
--   ReceivePendingData, FreeSocketObj and HandleIo, which is handle_events there. EventSelect.Child is
--   the loop of ChildThread over its handles, in rounds. main, ValidateArgs and PrintStatistics of
--   that file are not modelled.
-- * Select models chapter05/nonblocking/server/nbserver.cpp, an echo server with one thread that waits in
--   select for all its sockets. Select.State has BUFFER_OBJ and SOCKET_OBJ as records, the globals as
--   the record NbWorld and the calls of the system as the record NbSystem; socket objects are linked
--   through the addresses in their next and prev, and the queue of a socket is the list of its buffers.
--   Select.Objects is GetBufferObj, GetSocketObj, FreeSocketObj, InsertSocketObj, RemoveSocketObj and
--   EnqueueBufferObj, Select.Transfer ReceivePendingData and SendPendingData, Select.Loop the rounds of
--   select in main with the walk over a list that changes under it, and PrintStatistics but for its
--   output, and Select.Main the creation of the sockets and main as a whole. Where the process ends a
--   part of the program is exited, where a loop runs out of fuel it is stuck. FD_SET is a parameter.
--   ValidateArgs of that file is not modelled.
-- * Lsp models chapter12/LSP, a layered service provider: sockinfo.cpp, the contexts that it keeps for
--   its sockets, overlap.cpp, and of spi.cpp WSPCloseSocket and FreeBuffer. Lsp.State has SOCK_INFO as
--   a record, with its links as addresses, and Lsp.Contexts InsertSocketInfo, RemoveSocketInfo,
--   CreateSockInfo, FindAndLockSocketContext,
--   UnlockSocketContext, CloseAndFreeSocketInfo and GetCallerSocket. Locks are left out.
--   Lsp.Overlap is overlap.cpp: Lsp.Overlap.State has WSAOVERLAPPEDPLUS as a record and the globals as
--   OverlapWorld, Lsp.Overlap itself GetOverlappedStructure, PutbackOverlappedStructure and
--   AllocateFreePool, the queue of operations and CheckForContextCleanup, and Lsp.Overlap.Completion
--   QueueOverlappedOperation, ExecuteOverlappedOperation, IntermediateCompletionRoutine and
--   WSPCloseSocket. The provider below is a parameter; the threads of overlap.cpp are not modelled.
-- * RawUdp models chapter11/iphdrinc/rawudp.cpp, which builds IPv4 and IPv6 packets with a UDP
--   datagram in them and sends them over a raw socket. RawUdp.Checksum is checksum, RawUdp.Headers
--   the structures of iphdr.h, their bytes in memory and InitIpv4Header, InitIpv6Header,
--   InitIpv6FragmentHeader and InitUdpHeader, RawUdp.Udp the two functions
--   ComputeUdpPseudoHeaderChecksum, RawUdp.Fill memfill and RawUdp.Packets PacketizeIpv4 and
--   PacketizeIpv6. A buffer is the list of its bytes, an access outside of an array the value fault
--   or none. Sizes are not negative. RawUdp.Args is ValidateArgs, whose recursion is on the arguments
--   that are left. main of that file is not modelled.
-- * Parser models chapter07/SIO_RCVALL/parser.cpp, which decodes captured packets and prints them.
--   Parser.Tcp is DecodeUDPHeader and DecodeTCPHeader, Parser.Igmp DecodeIGMPHeader and Parser.Ip
--   DecodeIPHeader, which calls the others. A function gives the values it prints, and none where it
--   reads outside of the buffer or of a table. Parser.Fields applies it to packets of RawUdp.
--
-- Machine integers are natural numbers with the wrap-around written out: a LONG is its bit pattern,
-- and signed_ltb compares two of them as signed numbers. Winsock and the Win32 calls are no part of
-- the source: their answers are a parameter, a function from the number of the call to Answer, of
-- which a theorem assumes nothing but what it says. What a program asks of the system is recorded in
-- a trace. Printing is left out, unless a function does nothing else.
--
-- Loops over linked lists of Iocp take fuel, and so do the loops of EventSelect over the bytes of a
-- buffer, where more fuel than bytes is enough, and over the receives of a closing socket. The walk of Select over its list takes at most two steps
-- for each listening socket and one for each other. The theorems about them ask for more fuel than the list is long
-- and then show that the loop ends by its own test. ValidateArgs is given the number of arguments as
-- fuel, and the theorems about it are stated with that fuel.
-- PacketizeIpv6 needs no fuel: its loop uses up the entries of its array of packets. memfill has fuel
-- for the tests of its loop, and one more than the copies it makes is enough.
mod Base
pub mod Iocp
pub mod RawUdp
pub mod Parser
pub mod Ordered
pub mod EventSelect
pub mod Lsp
pub mod Select
