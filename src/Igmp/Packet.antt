-- ===== src/Igmp/Packet.antt =====
-- The packets that igmp.c sends: `create_igmp_msg` and its two callers.
use sc_xtcp.Base.{List, [], if◌then◌else◌, some, ℕ, ◌%◌, ◌++◌, ◌+◌, ◌-◌, ◌/◌, ◌==◌, ◌∷◌}
use sc_xtcp.Base.Net.{IpAddr, word0, word1}
use sc_xtcp.Base.Words.{htons, u16}
use sc_xtcp.Igmp.{Group, Igmp, Station, leavegroup_ipaddr}

abbrev pub addr_bytes : IpAddr → List ℕ
addr_bytes a = a.b0 ∷ a.b1 ∷ a.b2 ∷ a.b3 ∷ []

-- the bytes before the checksum: version and length, service, total length, id, offset, life, protocol
abbrev pub first_bytes : ℕ → List ℕ
first_bytes ipid = 70 ∷ 0 ∷ 0 ∷ 32 ∷ ipid / 256 ∷ ipid % 256 ∷ 0 ∷ 0 ∷ 1 ∷ 2 ∷ []

abbrev pub router_alert : List ℕ
router_alert = 148 ∷ 4 ∷ 0 ∷ 0 ∷ []

abbrev pub nonzero_sum : ℕ → ℕ
nonzero_sum c = if c == 0 then 65535 else c

-- `create_igmp_msg`, where ~ on a 16-bit word is the difference from 65535
unfoldable pub create_igmp_msg : Station → ℕ → IpAddr → IpAddr → Igmp → Igmp
create_igmp_msg st msgtype dest group s =
    let header =
      first_bytes s.ipid ++ 0 ∷ 0 ∷ addr_bytes st.uip_hostaddr ++ addr_bytes dest ++ router_alert in
    record s {
      uip_len = 46;
      ipid = u16 (s.ipid + 1);
      uip_buf = some (record {
        dest_hwaddr = 1 ∷ 0 ∷ 94 ∷ word0 dest / 256 ∷ word1 dest % 16 ∷ word1 dest / 256 ∷ [];
        src_hwaddr = st.uip_ethaddr;
        ethtype = htons 2048;
        ip_header = first_bytes s.ipid;
        ipchksum = 65535 - nonzero_sum (u16 (st.uip_chksum header));
        srcipaddr = st.uip_hostaddr;
        destipaddr = dest;
        options = router_alert;
        msgtype = msgtype;
        max_response = 0;
        checksum = 65535 - u16 (u16 (msgtype + word0 group) + word1 group);
        group_addr = group;
      });
    }

abbrev pub igmp_membership_query : ℕ
igmp_membership_query = 17

abbrev pub igmp_membership_report : ℕ
igmp_membership_report = 22

abbrev pub igmp_leave : ℕ
igmp_leave = 23

-- `send_membership_report`
abbrev pub send_membership_report : Station → Group → Igmp → Igmp
send_membership_report st g s = create_igmp_msg st igmp_membership_report g.addr g.addr s

-- `send_leave_group`
abbrev pub send_leave_group : Station → Group → Igmp → Igmp
send_leave_group st g s = create_igmp_msg st igmp_leave leavegroup_ipaddr g.addr s
