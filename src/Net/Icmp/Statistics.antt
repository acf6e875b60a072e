-- ===== src/Net/Icmp/Statistics.antt =====
-- icmp_ping of src/network/icmp.c. The timer and the packets that arrive are an argument: one record
-- for each round of the loop.
use cgos.Base.{
  ℕ, ◌+◌, ◌-◌, ◌%◌, ◌^◌, Bool, true, false, not, ◌&&◌, List, [], ◌∷◌, ltb, ◌==◌, if◌then◌else◌,
}
use cgos.Net.Icmp.{Ping}

-- `ping_result_t`
pub record PingResult : Type 0 where
  pub sent : ℕ
  pub received : ℕ
  pub min_time : ℕ
  pub max_time : ℕ
  pub total_time : ℕ

-- What the rest of the system does in a round: the time, whether icmp_send_echo_request returns
-- NET_SUCCESS, and what network_process_packets makes of the statics until the wait ends, and in the
-- delay behind it.
pub record Round : Type 0 where
  pub ticks : ℕ
  pub accepted : Bool
  pub waits : Ping → Ping
  pub delays : Ping → Ping

abbrev pub started : PingResult
started = record { sent = 0; received = 0; min_time = 0xFFFFFFFF; max_time = 0; total_time = 0 }

-- The difference of two times, as a uint32_t.
abbrev pub round_trip : Ping → ℕ
round_trip p = (p.ping_reply_time + 2 ^ 64 - p.ping_send_time) % 2 ^ 64 % 2 ^ 32

-- A reply in time.
unfoldable pub count_reply : ℕ → PingResult → PingResult
count_reply rtt result = record result {
  received = result.received + 1;
  total_time = (result.total_time + rtt) % 2 ^ 32;
  min_time = if ltb rtt result.min_time then rtt else result.min_time;
  max_time = if ltb result.max_time rtt then rtt else result.max_time;
}

-- The end of a round, once the wait has ended.
unfoldable pub judge : ℕ → Ping → PingResult → PingResult
unfolding count_reply
judge dest_ip p result =
    if p.ping_reply_received && p.ping_reply_src_ip == dest_ip
    then count_reply (round_trip p) result
    else result

unfoldable pub ping_round : ℕ → Bool → Round → Ping → PingResult → Ping × PingResult
unfolding judge
ping_round dest_ip last r p result =
    let q : Ping = record p { ping_reply_received = false; ping_send_time = r.ticks } in
    let q' : Ping = r.waits q in
    if not r.accepted then (q, result) else (
      (if last then q' else r.delays q'),
      judge dest_ip q' (record result { sent = result.sent + 1 }),
    )

abbrev pub is_empty : List Round → Bool
is_empty [] = true
is_empty (r ∷ rs) = false

-- The loop, over the rounds that are left.
unfoldable pub ping_rounds : ℕ → List Round → Ping → PingResult → Ping × PingResult
unfolding ping_round
ping_rounds dest_ip [] p result = (p, result)
ping_rounds dest_ip (r ∷ rs) p result =
    let (p', result') = ping_round dest_ip (is_empty rs) r p result in
    ping_rounds dest_ip rs p' result'

unfoldable pub icmp_ping : ℕ → List Round → Ping → Ping × PingResult
unfolding ping_rounds
icmp_ping dest_ip rounds p = ping_rounds dest_ip rounds p started
