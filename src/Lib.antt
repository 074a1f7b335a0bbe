-- ===== src/Lib.antt =====
-- MessageBoy is a relay for port forwarding: clients behind firewalls hold one WebSocket to a
-- server, and TCP connections accepted by one client are multiplexed over it as streams to another
-- client. This library models the core of the Go program and proves what makes it correct.
--
-- The parts and how they meet. A client turns a TCP connection into a stream
-- (internal/relay/tunnel.go, StreamManager) and its bytes into messages (TunnelMessage), which the
-- codec of the same file turns into frames. The relay server (internal/relay/ws_server.go) decodes
-- the frames of a client, keeps a table of routes between two clients, and queues each message for
-- the other end. It asks the load balancer (internal/proxy/load_balancer.go) for the target of a
-- group, over the tables of groups and nodes (internal/storage/proxy_group_repo.go) that the health
-- checker (internal/proxy/health_checker.go) keeps up to date, and it charges bytes and connections
-- to the traffic counters (internal/storage/traffic_repo.go). A client reads its connection with
-- handleTunnelMessages (internal/client/client.go) and moves bytes between streams and TCP
-- connections (internal/client/relay_forwarder.go, forwarder.go). Its forwarders come from the
-- forward rules, which an administrator changes by RPC methods (internal/api/forward_rpc.go) over
-- the storage (internal/storage/forward_repo.go): each change notifies the client through the relay
-- server, and the client fetches its rules again. Clients count on their own
-- (internal/client/traffic_counter.go) and report to the server
-- (internal/api/client_internal_rpc.go). cmd/server/main.go puts the parts together.
--
-- Base: shared names; Boolean tests and lists over the native numbers, Go strings as bytes, maps as
-- association lists, tables of rows.
-- Wire: the codec. MarshalTo is marshal_to, which takes the old contents of its buffer;
-- UnmarshalBinary is unmarshal_binary; the pools are a parameter whose only law is the length of a
-- buffer (Wire/Pool).
-- Stream: streams as objects under references, since goroutines share pointers to them. new_stream,
-- add_stream, remove_stream, close_all, close and write are the methods.
-- Hub: the relay server. Its state is the record Server; the connections are objects under
-- references. Hub/Routing has handleConnect to handleError, Hub/Lifecycle a connection's life and
-- the dispatch, Hub/PortCheck the port checks as the two halves around the wait. Hub/Run has the
-- steps by which goroutines interleave, one handler at a time, and the states that can be reached.
-- The balancer and the counters are the record Services.
-- Proxy: the balancer over ProxyGroupReader, the health checker over ProxyGroupStore (Proxy/Health),
-- and the tables that stand behind both (Proxy/Tables). rand.Intn is a parameter; its contract is
-- the hypothesis IsIntn. That a group at hand has fewer than 2^32 healthy nodes is the hypothesis
-- IsSmall, which Proxy/Small derives for the tables from the number of their rows.
-- Traffic: the counters of a client (Traffic/Counter) and of the server (Traffic/Repository), with
-- the database of FlushToDatabase as the record TrafficDb.
-- Conn: a client's connection (internal/relay/ws_client.go). Conn/Sealing has the encryption around
-- the codec, with the cipher of pkg/common/crypto as a parameter whose laws are the length of the
-- tag and that decryption undoes encryption; Conn/EndToEnd and Conn/Control follow a Data message
-- and any other message from Send to readPump. Conn/Reconnect has the states of the connection and
-- of its reconnect loops, as a run over events: any number of loops can be there, and a call of
-- handleDisconnect between its lock and its compare-and-swap is a state of its own;
-- Conn/Reconnect/Single counts the loops.
-- Rules: applyRules of internal/client/client.go as apply_rules, over the rules of one answer of the
-- server. Reading a field that is missing or not a string, where the source panics or takes the
-- empty string, has no counterpart; the fields are strings, an absent one the empty string. That a
-- rule's forwarder could not be started is only reported to the server, and is left out.
-- Tunnel: a client's side of its streams. handle_tunnel_message is one round of handleTunnelMessages
-- over the streams of Stream, where a goroutine that is started is recorded as a task. Tunnel/Flow
-- follows one stream through forwardFromTunnel, as a run over arrivals, choices of the select and
-- the Close of the stream's other loop; Tunnel/Forwarding is forwardToTunnel over the Send of Conn,
-- from which frames come out of a queue that takes them all, Tunnel/Waiting is the select of
-- waitForConnAck with the stream that it waits on, Tunnel/Incoming is handleIncomingConnect over
-- what the dialing answers, Tunnel/Incoming/Answer joins it to the wait of the source,
-- Tunnel/Copying is copyAndCount over what reads and writes answer, Tunnel/Retry is
-- registerWithRetry over what the attempts answer.
-- Storage: the rows of the tables of rules and clients; Storage/Forwards is forward_repo.go and
-- Storage/Clients is client_repo.go.
-- Api: the RPC methods. They run over the interface Backend: the queries with their errors, the
-- notifications of the relay server, and the two waits of updateForwardRule, in which others may
-- change the state. Api/Site fills the interface with the tables and the relay server. Api/Forward
-- is forward_rpc.go, with the changing methods in Api/Forward/Changing and the reading ones in
-- Api/Forward/Reading; Api/Internal has the methods for clients; Api/Rpc is the dispatch of
-- rpc_handler.go with the table of methods of api.go, the login and the middleware. Api/Groups has
-- the methods of proxy_group_rpc.go over an interface of its own, which Api/Groups/Tables fills with
-- the tables of Proxy/Tables; Proxy/Consistent says when groups and nodes belong together.
-- Api/Clients has the methods of client_rpc.go, in the same way, with the bytes of the random
-- generator as a function of a count. Api/Fetching joins clientGetRules to fetchAndApplyRules and
-- applyRules of the client.
-- Wiring: the server with the balancer and the counters in place.
--
-- Choices. The parameters of an RPC method are given as decoded, with none for a text that does not
-- decode; a page or limit that is not positive is 0, and the numbers of a group or node are not
-- negative. The search in the names of groups is a parameter. The identifiers of uuid.New are a
-- function of a count; no theorem needs them to differ. The check of a token is a parameter, which
-- answers the user of a valid token. Machine integers are natural numbers below their modulus, with
-- the wrap-around written out (the sums that the database keeps in its bigint columns are not
-- bounded); negative values of the counters are in two's complement. The order of a Go map's
-- iteration is the order of the association list. No model needs fuel except the decimal digits of a
-- stream id, which are at most ten. A handler is one step: within it the server's maps are locked or
-- the step concerns one connection. SQL statements have the effect that they name, on rows in the
-- order of their creation, and calls that return an error of the database are modelled where the
-- source reacts to it.
--
-- Not modelled: logging, time stamps and tickers, the WebSocket and TCP libraries, HTTP, JSON and
-- the making of tokens, the ciphers, the client's queues, main loop and status reports, the traffic
-- summaries, the web shell, the web frontend.
pub mod Base
pub mod Wire
pub mod Stream
pub mod Hub
pub mod Proxy
pub mod Traffic
pub mod Wiring
pub mod Conn
pub mod Rules
pub mod Storage
pub mod Api
pub mod Tunnel
