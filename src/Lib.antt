-- ===== src/Lib.antt =====
-- The C core of chinadns-ng as functions, and what makes it correct.
--
-- chinadns-ng forwards DNS queries to two groups of servers and decides by domain lists and by the
-- addresses in the replies which answer to give. Its C core parses and rewrites DNS messages, keeps
-- the domain lists and the names of their tags, and talks to ipset; the server around it is written
-- in Zig.
--
-- Parts.
--   Dns        src/dns.c, src/dns.h: messages. A message is the list of its bytes; a C pointer into
--              it together with the remaining length is the list of the bytes from there.
--     Header   the structs dns_header and dns_question, their bit-fields, and the accessors.
--     Name     decode_name, dns_ascii_to_wire, dns_wire_to_ascii. Children: the labels of a name as
--              the specification of both notations, and the two directions against it.
--     Record   struct dns_record, skip_name, foreach_record, skip_record. A callback is a function
--              from the record's bytes and the user data to what it does (Visit): its result, the TTL
--              that it stores, whether it breaks, and the new user data. Children: the grammar of
--              records, stated apart from the code, and the walk as a fold over records.
--     Check    check_msg, dns_check_query, rm_additional, dns_check_reply. A failed check returns the
--              message as memory holds it.
--     Ttl      get_ttl, update_ttl, dns_get_ttl, dns_update_ttl. The i32 arithmetic is written out:
--              bit patterns of 32 bits and the integers they stand for.
--     Build    dns_empty_reply, dns_servfail_reply, dns_truncate, dns_make_reply.
--     Scan     dns_get_bufsz, dns_test_ip, dns_add_ip with their callbacks. ipset_test_ip,
--              ipset_add_ip and ipset_end_add_ip (src/ipset.c) are parameters of a section: an address
--              and its version to a Boolean, or to the next state of the context.
--     Domains  dns_qname_domains: the parent domains of the name asked for. Children: the levels asked
--              for as a set, and the domains against the labels of the name.
--   Tag        src/tag.c: the table of tag names, passed as an argument and returned.
--   Dnl        src/dnl.c: check_name, which truncates a name of a list and notes its level.
--     Table    the two-level hash table: add_list, add_to_dnl, add_to_map2, resize_map2, exists_in_dnl.
--              A list of names linked from a bucket is a list; calc_hashv is a parameter. Children, from
--              the bottom up: Chain (a list), Rehash, Resize and Grow (resize_map2), Store (the L2
--              map), Lookup (both maps), Extend and Added (a name more, and names).
--     Memory   alloc and the names in memory as add_name writes them and add_list walks over them; the
--              mapping of pages is a parameter. Child: the walk finds what was written.
--     Init     dnl_init on the names of each tag. Child: the priority of the tags.
--     Suffix   get_suffix and dnl_get_tag. Child: the suffixes as those of the labels.
--     Load     load_list and the loading loop of dnl_init, with readToken and dnl_load_list_gz of
--              src/dnl.zig for the .gz files. The files, fscanf and the gzip stream are a record of
--              parameters; stdin is empty behind its first reading. Children: Noted (the levels in use
--              as a set of bits), Scanned and Checked (which names check_name accepts), Listed (what is
--              read), Tagged (from the files to a tag).
--   CacheMgr   tool/dns_cache_mgr.c: next, list, delete, the arguments and main. The file, the clock and
--              what malloc gives are a record of parameters. Children: Suffix (the suffix test on
--              labels), Entries (a file as its entries), Delete, Listing, Arguments.
--   Ipset      src/ipset.c, src/nl.h: constants, and the names of sets (parse_name46, parse_name_nftset).
--              Children: Split, Parts and Accepted, the names of nftables sets that are accepted.
--     Message  nl.h on a buffer: the bytes in use and the spare bytes. nlmsg_len is the length of what
--              is in use, so a message's length is changed by moving bytes (set_len in Batch). Children:
--              attributes as the specification of what is written, and the elements.
--     Context  init, ipset_new_testctx and ipset_new_addctx; Side is one address family of struct
--              ipset_addctx. Child: the messages fit into their buffers.
--     Batch    what a batch of addresses is in the messages, without the calls: addresses appended, the
--              requests that test them, and what is kept and sent at the end (end_add_ip).
--     Add      ipset_add_ip, ipset_end_add_ip, ipset_test_ip for both backends, which the argument
--              is_ipset chooses as the function pointers of the source do. sendmmsg and recvmmsg are
--              parameters over a state; sendall is that of src/misc.h. Children, from the bottom up:
--              Filled (an address added), Holding (the message between two calls), Sent and Ended (what
--              is sent), Delivered (sendall against the system call), Sides (both families), Flushed
--              (ipset_end_add_ip), Kept (ipset_add_ip), New (a new context), Interval (the end of an
--              interval), Calls (send_req and recv_res), Returns (ipset_end_add_ip).
--     Errors   ipset_strerror.
--   Net        src/net.c: userspace_recvmmsg and userspace_sendmmsg, and net_init, which picks between
--              them and the system calls; the single calls, recvmsg and sendmsg, are parameters over
--              a state of the system. Child Fallback: what sendmmsg(2) promises, of the replacement.
--   Bitvec     src/misc.h: the bit vectors on bytes; Ipset takes them as lists of Booleans.
--   Prelude    lists and Boolean tests over native numbers, words of bytes, integers.
--   Tests      concrete messages, runs of the model on them, and examples of the theorems.
--
-- How they interact. dnl_get_tag answers from what load_list read and dnl_init stored; Dnl/Load/Tagged
-- puts the three together. dns_check_reply makes a good reply into one whose records are whole and
-- counted; dns_get_ttl and dns_update_ttl, which the cache calls on it, rely on that. dns_truncate and
-- dns_make_reply make messages for clients. All sides meet in the predicates HasQuestion
-- (Dns/Check/Question) and IsReply (Dns/Check/Reply). dns_add_ip calls ipset_add_ip for each address
-- of a reply and ipset_end_add_ip behind the last one.
--
-- Bounds and fuel. A loop that moves a pointer takes the number of bytes left as fuel, since each
-- round moves it by a byte at least; suffix_loop takes one more than the highest level, and redo two
-- more than the items, as the load limit of the L2 map doubles in each of its rounds.
-- delete_loop and list_loop of the cache file tool take the bytes of the file and one more, as each
-- round reads a header. sendall takes the number of messages, of which each round sends one at least. parts_loop takes one
-- more than the bytes of the name. foreach_record runs on its count. A failed assertion and a write
-- behind a netlink buffer are `none`. The host is little-endian, as far as netlink is concerned.
--
-- Not modelled: the memory of the buckets (src/dnl.c, where the hash table has lists), the netlink
-- socket (src/nl.c), the epoll accessors (src/net.c), logging and system calls (src/misc.c,
-- src/log.c), the vendored hash (src/uthash.h), and the other Zig sources, which are the event loop,
-- the server, the upstreams, the caches and the options.
pub mod Prelude
pub mod Dns
pub mod Tag
pub mod Net
pub mod Bitvec
pub mod Ipset
pub mod CacheMgr
pub mod Dnl
pub mod Tests
