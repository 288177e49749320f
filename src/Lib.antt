-- ===== src/Lib.antt =====
-- A model of the networking code of this repository around the uIP stack, and the theorems about it.
--
-- The program. The xtcp server gives applications TCP and UDP over channels. The uIP stack calls the
-- server for each event of a connection (`xtcpd_appcall`), the server sends events to its clients and
-- handles their commands while it waits for them, and leaves what they asked for as requests in the
-- connection's state until uIP polls the connection. Glue code sends and receives the Ethernet frames,
-- polls the connections and reacts to the link, to DHCP and to the link-local protocol. On the
-- client's side a buffered interface cuts the byte stream into blocks or lines, a TFTP server takes
-- files, an mDNS responder claims names on the local net, announces them and answers for them, and an
-- example serves a web page. Two demo servers stand on the buffered interface.
--
-- The parts:
-- * Base has the shared names, lists over the native numbers, words, and addresses.
-- * Buffered models module_xtcp/src/xtcp_buffered_client.c. A pointer into a buffer is its distance
--   from the buffer's start, and the calls on the channel are returned as values. Buffered.View is
--   the queue that clients and server see of a transmit buffer, and Buffered.Quotient forgets where
--   in memory its bytes lie.
-- * Server models module_xtcp/src/xtcp_uip/uip_xtcp.c and the handling of commands of
--   module_xtcp/src/xtcp_server.xc. The two tables of uIP hold the connection states; a pointer to a
--   connection is a table and an index, and a fault (a null pointer, or a pointer of the other table's
--   type) is `none`. What the clients do in each wait is a script of the state, so that a theorem for
--   all states is one for all behaviours of the clients. The search for an id has MAX_GUID rounds,
--   which is enough since there are fewer connections than ids. Left out are the test of
--   `xtcpd_appcall` for a `uip_conn` that is NULL, and that `xtcpd_recv` offers a packet again where the
--   client is not ready: what the clients do meanwhile is in the script all the same. The options for partial
--   acknowledgements and the notification of the push flag are off, as by default.
--   Server.Channel is the channel between the server and one client, with both sides: the tokens
--   on their way are a list in each direction, a step of either side takes one, and the sides
--   choose in any order when to send a command or an event. The other clients touch nothing of it.
-- * Autoip models module_xtcp/src/xtcp_uip/autoip/autoip.c, and Igmp models
--   module_xtcp/src/xtcp_uip/igmp/igmp.c, both with what `timer_expired` answers as an argument. The
--   default configuration leaves IGMP out (UIP_IGMP is 0).
-- * Tftp models module_tftp/src/tftp_support.c, over the byte order functions and the application, and
--   Tftp.Handler module_tftp/src/tftp.xc, the state machine over xtcp events that calls it, with
--   xtcp_recv_count of module_xtcp/src/xtcp_client.xc. The calls of the client library and of the
--   application are a trace, and what lies on the stack behind a packet is a parameter.
-- * Support models module_xtcp/src/xtcp_uip/uip_server_support.c for IPv4 with DHCP, link-local
--   addresses and IGMP; in Support.Polling the stack itself is a parameter.
-- * Mdns models module_zeroconf/mdns/mdns.c without NetBIOS. A packet is the list of the bytes of its
--   array and a pointer into it a position; a read outside the array or at NULL, and a write behind its
--   end, is `none`. The loop of `mdns_parse_name` has no bound in the source and runs on fuel, and
--   what fuel is enough is a theorem. The xtcp calls are values.
-- * Httpd models app_simple_webserver/src/httpd.c, an application on the server.
-- * Blocking models module_xtcp/src/xtcp_blocking_client.xc: the events that the server sends are a list,
--   and a call that waits for more than the list has does not return.
-- * Demo models the two demo servers over the buffered client under experimental: the echo of lines
--   (app_buffered_protocol_demo_2), the messages behind a header (app_buffered_protocol_demo), and the
--   table of connections that both have. Their loops have no bound in the source and run on fuel: one
--   round for each byte at hand and one more is enough.
--
-- Numbers are native; unsigned words wrap as written. The tables have the sizes of the lists that stand
-- for them, so that theorems hold for every configured size up to the bounds they name.
--
-- Not modelled: the uIP library, its ARP and its DHCP client, and the Contiki stack for IPv6, which are
-- copies of other projects' code and stand as parameters or as a trace of calls; the XC code but for the
-- commands and the channel to a client, the TFTP server and the blocking client; the experimental PIP stack;
-- NetBIOS in module_zeroconf; the other example applications and the tests.
pub mod Base
pub mod Buffered
pub mod Server
pub mod Autoip
pub mod Igmp
pub mod Tftp
pub mod Demo
pub mod Blocking
pub mod Support
pub mod Mdns
pub mod Httpd
