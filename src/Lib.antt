-- ===== src/Lib.antt =====
-- Ardos is the server of a distributed object protocol. Its processes exchange datagrams: a client
-- talks to a Client Agent, objects live on a State Server or, when they are kept, in a Database, and
-- the Message Director of each process hands every datagram to the subscribers of its channels, in
-- the process or over RabbitMQ. Classes and fields come from DC files.
--
-- Files and parts:
--  * Prelude: numbers, lists and tests for all files; Prelude.Action is the state and exception
--    monad that stands for C++ functions that change an object and may throw; Prelude.Words is the
--    little endian layout of a number.
--  * Dc: the part of libs/dclass that the program calls, as a parameter: a record of its functions.
--  * Net.Datagram (src/net/datagram.cpp): the growing buffer. A datagram is its allocation, its
--    offset and its recorded length; add_uint16 and its like are AddUint16 and its like.
--  * Net.DatagramIterator (src/net/datagram_iterator.cpp): the reader; get_uint16 is GetUint16,
--    unpack_field and skip_field are UnpackField and SkipField.
--  * Net.Items: rows of values, to state what the two promise together. Net.Header: the routing
--    header at the start of every message. Net.Fields: UnpackField against SkipField.
--  * Net.TcpTransport (src/net/tcp_transport.cpp): one connection, with its read buffer and its
--    write queue, and a step for each event of the socket.
--  * Net.NetworkClient (src/net/network_client.cpp): the same for a participant's connection, with
--    the subclass that shuts down at a disconnect.
--  * MessageDirector.Director and MessageDirector.Subscriber
--    (src/messagedirector/channel_subscriber.cpp and message_director.cpp): the static maps and all
--    subscribers of a process as one state, one function per member function, and `interested`, the
--    set that a datagram is handed to. The child modules prove the counts and bindings (Channels,
--    Bindings), what a call leaves alone (Views), the indexes (Ranges, Index, Life, History) and the
--    dispatch (Dispatch).
--  * MessageDirector.RoutingKey, MessageDirector.Publish and MessageDirector.Participant
--    (src/messagedirector/channel_subscriber.cpp, message_director.cpp and md_participant.cpp): the
--    text of routing keys, PublishDatagram with DeliverLocally, and the control messages and post
--    removes of a participant. HandleDatagram of a subscriber is virtual, and a parameter: it may
--    change the subscriptions of the process, publish and throw. The calls of it, and what goes to
--    the broker, are kept as logs.
--  * StateServer.Messages, FieldMap and ZoneObjects (src/net/message_types.h, src/util/globals.h and
--    src/stateserver/distributed_object.h): channels and message numbers, the std::map of field
--    values by rising key, and the children of an object by zone.
--  * StateServer.DistributedObject (src/stateserver/distributed_object.cpp): an object is a record
--    of its members; a call has the object, the iterator of its datagram and a log of what it
--    publishes and subscribes to. Entries, Fields, Location, Ai, Children, Life and Handle have a
--    function for each member function and each case of HandleDatagram: handle_set_field is the case
--    SET_FIELD. Their child modules and Calls, Keeps, History and Handshake are proofs. Keeps
--    reduces what all messages keep to the few ways in which the cases change an object; History is
--    an object from Init on.
--  * StateServer.Server (src/stateserver/state_server.cpp): the objects by identifier, with
--    deliver_to_object for a datagram to one of them, which also does what the object calls on the
--    server. Identifiers, Safe and Consistent are what the server's own messages do to the objects,
--    and Delivery is what those for an object do.
--  * ClientAgent.ParentingRule (src/clientagent/parenting_rule.cpp): the parsing of parenting rules
--    (Parse, Rule) and the zones around an avatar (Grid). Prelude.Decimal is the text of a number,
--    for these and for routing keys; Prelude.Sets is an unordered set as a list.
--
-- Integers are natural numbers; where the source narrows one, the modulus is written out. A signed
-- or floating point number is the number that has its bytes. Recursion over DC fields is on the
-- height of the field, which the library's trees have and Dc names as `depth`; Net.Fields.Unpack
-- shows that it is enough. The loop of ProcessBuffer runs on the size of the buffer, of which each
-- round removes two bytes or more.
--
-- HandleOneGet recurses on two levels, those of a molecular field and its parts. What an object of
-- the State Server publishes stands in its log: what its hearers do before its handler goes on is
-- not part of the handler here. A throw out of HandleDatagram of an object leaves the object as it
-- is at the throw.
--
-- Not modelled: libs/dclass and libs/ws28, which are other projects; the web panel, logging, metrics
-- and configuration; the setup of sockets and of the connection to RabbitMQ; allocation failure. Of
-- the Client Agent only the parenting rules are modelled, and of the database and of the objects
-- that are loaded from it nothing.
pub mod Prelude
pub mod Dc
pub mod Net
pub mod MessageDirector
pub mod StateServer
pub mod ClientAgent
