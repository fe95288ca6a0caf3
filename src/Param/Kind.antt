-- ===== src/Param/Kind.antt =====
-- src/param/param_type.rs: the names of the parameter types and their numbers.
use sctp.Base.{ℕ, ◌≡◌, arith, ◌==◌, if◌then◌else◌}

pub data ParamType : Type 0 where
  heartbeat_info ipv4_addr ipv6_addr state_cookie unrecognized_param cookie_preservative : ParamType
  host_name_addr supported_addr_types out_ssn_reset_req inc_ssn_reset_req : ParamType
  ssn_tsn_reset_req reconfig_resp add_out_streams_req add_inc_streams_req random : ParamType
  chunk_list req_hmac_algo padding supported_ext forward_tsn_supp add_ip_addr del_ipaddr : ParamType
  err_clause_ind set_pri_addr success_ind adapt_layer_ind : ParamType
  unknown_type : (param_type : ℕ) → ParamType

unfoldable pub from_u16 : ℕ → ParamType
from_u16 v =
    if v == 1
    then heartbeat_info
    else if v == 5
    then ipv4_addr
    else if v == 6
    then ipv6_addr
    else if v == 7
    then state_cookie
    else if v == 8
    then unrecognized_param
    else if v == 9
    then cookie_preservative
    else if v == 11
    then host_name_addr
    else if v == 12
    then supported_addr_types
    else if v == 13
    then out_ssn_reset_req
    else if v == 14
    then inc_ssn_reset_req
    else if v == 15
    then ssn_tsn_reset_req
    else if v == 16
    then reconfig_resp
    else if v == 17
    then add_out_streams_req
    else if v == 18
    then add_inc_streams_req
    else if v == 32770
    then random
    else if v == 32771
    then chunk_list
    else if v == 32772
    then req_hmac_algo
    else if v == 32773
    then padding
    else if v == 32776
    then supported_ext
    else if v == 49152
    then forward_tsn_supp
    else if v == 49153
    then add_ip_addr
    else if v == 49154
    then del_ipaddr
    else if v == 49155
    then err_clause_ind
    else if v == 49156
    then set_pri_addr
    else if v == 49157
    then success_ind
    else if v == 49158
    then adapt_layer_ind
    else unknown_type v

unfoldable pub to_u16 : ParamType → ℕ
to_u16 heartbeat_info = 1
to_u16 ipv4_addr = 5
to_u16 ipv6_addr = 6
to_u16 state_cookie = 7
to_u16 unrecognized_param = 8
to_u16 cookie_preservative = 9
to_u16 host_name_addr = 11
to_u16 supported_addr_types = 12
to_u16 out_ssn_reset_req = 13
to_u16 inc_ssn_reset_req = 14
to_u16 ssn_tsn_reset_req = 15
to_u16 reconfig_resp = 16
to_u16 add_out_streams_req = 17
to_u16 add_inc_streams_req = 18
to_u16 random = 32770
to_u16 chunk_list = 32771
to_u16 req_hmac_algo = 32772
to_u16 padding = 32773
to_u16 supported_ext = 32776
to_u16 forward_tsn_supp = 49152
to_u16 add_ip_addr = 49153
to_u16 del_ipaddr = 49154
to_u16 err_clause_ind = 49155
to_u16 set_pri_addr = 49156
to_u16 success_ind = 49157
to_u16 adapt_layer_ind = 49158
to_u16 (unknown_type param_type) = param_type

-- A type's number survives the enum, known or not.
pub to_u16-from_u16 : (v : ℕ) → to_u16 (from_u16 v) ≡ v
unfolding to_u16 from_u16
to_u16-from_u16 v = ground arith
