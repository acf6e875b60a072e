-- ===== src/Net/Icmp/Measure.antt =====
-- What the result of icmp_ping of src/network/icmp.c tells of the rounds.
use cgos.Base.{
  ℕ, ◌+◌, ◌-◌, ◌%◌, ◌^◌, ◌<◌, ◌≤◌, ◌≡◌, ◌⊎◌, inl, inr, refl, sym, subst, Bool, true, false, ◌&&◌,
  List, [], ◌∷◌, ltb, ◌==◌, if◌then◌else◌, length, arith, Bool-cases,
}
use cgos.Net.Icmp.{Ping}
use cgos.Net.Icmp.Statistics.{
  PingResult, Round, started, round_trip, count_reply, judge, ping_round, is_empty, ping_rounds,
  icmp_ping,
}

-- The statics when the request of a round is sent, and when its wait ends.
abbrev pub at_send : Round → Ping → Ping
at_send r p = record p { ping_reply_received = false; ping_send_time = r.ticks }

abbrev pub at_end : Round → Ping → Ping
at_end r p = r.waits (at_send r p)

-- The time of the reply less that of the request, as a uint32_t, if the host has replied.
abbrev pub add_trip : ℕ → Round → Ping → List ℕ → List ℕ
add_trip dest_ip r q trips =
    if q.ping_reply_received && q.ping_reply_src_ip == dest_ip
    then (q.ping_reply_time + 2 ^ 64 - r.ticks) % 2 ^ 64 % 2 ^ 32 ∷ trips
    else trips

-- The round trips of the rounds whose request was sent, the latest first, before `trips`.
unfoldable pub trips_of : ℕ → List Round → Ping → List ℕ → List ℕ
trips_of dest_ip [] p trips = trips
trips_of dest_ip (r ∷ rs) p trips =
    let q : Ping = at_end r p in
    let more =
      trips_of dest_ip rs (if is_empty rs then q else r.delays q) (add_trip dest_ip r q trips) in
    let rest = trips_of dest_ip rs (at_send r p) trips in if r.accepted then more else rest

-- The number of requests that are sent.
unfoldable pub sent_of : List Round → ℕ
sent_of [] = 0
sent_of (r ∷ rs) = let rest = sent_of rs in if r.accepted then 1 + rest else rest

-- What arrives during a wait leaves the time of the request alone.
abbrev pub KeepTimes : List Round → Type 0
KeepTimes [] = Unit
KeepTimes (r ∷ rs) = ((p : Ping) → (r.waits p).ping_send_time ≡ p.ping_send_time) × KeepTimes rs

-- What the round trips add up to, their bounds, and a round trip of the list.
unfoldable pub total : List ℕ → ℕ
total [] = 0
total (x ∷ xs) = x + total xs

abbrev pub AreWithin : ℕ → ℕ → List ℕ → Type 0
AreWithin low high [] = Unit
AreWithin low high (x ∷ xs) = ((low ≤ x) × (x ≤ high)) × AreWithin low high xs

abbrev pub HasTrip : ℕ → List ℕ → Type 0
HasTrip m [] = ⊥
HasTrip m (x ∷ xs) = (m ≡ x) ⊎ HasTrip m xs

-- The bounds are round trips of the list, or those that icmp_ping begins with.
abbrev pub AreAttained : ℕ → ℕ → List ℕ → Type 0
AreAttained low high [] = (low ≡ 0xFFFFFFFF) × (high ≡ 0)
AreAttained low high (x ∷ xs) = HasTrip low (x ∷ xs) × HasTrip high (x ∷ xs)

-- A result that tells of these round trips, after `sent` requests.
pub record IsMeasured (sent : ℕ) (trips : List ℕ) (r : PingResult) : Type 0 where
  pub requests : r.sent ≡ sent
  pub counted : r.received ≡ length trips
  pub bounded : AreWithin r.min_time r.max_time trips
  pub attained : AreAttained r.min_time r.max_time trips
  pub summed : r.total_time ≡ total trips % 2 ^ 32

AreWithin-wider :
    (low high low' high' : ℕ) (trips : List ℕ)
    → low' ≤ low
    → high ≤ high'
    → AreWithin low high trips
    → AreWithin low' high' trips
AreWithin-wider low high low' high' [] l h k = tt
AreWithin-wider low high low' high' (x ∷ xs) l h ((a, b), k) =
    ((omega arith, omega arith), AreWithin-wider low high low' high' xs l h k)

HasTrip-more :
    (b : Bool) (x m : ℕ) (trips : List ℕ)
    → HasTrip m trips
    → HasTrip (if b then x else m) (x ∷ trips)
HasTrip-more true x m trips h = inl refl
HasTrip-more false x m trips h = inr h

AreAttained-more :
    (low high x : ℕ) (trips : List ℕ)
    → x < 2 ^ 32
    → AreAttained low high trips
    → AreAttained (if ltb x low then x else low) (if ltb high x then x else high) (x ∷ trips)
AreAttained-more low high x [] small (a, b) = (inl (ground arith), inl (ground arith))
AreAttained-more low high x (y ∷ ys) small (a, b) =
    (HasTrip-more (ltb x low) x low (y ∷ ys) a, HasTrip-more (ltb high x) x high (y ∷ ys) b)

count_reply-IsMeasured :
    (n rtt : ℕ) (trips : List ℕ) (r : PingResult)
    → rtt < 2 ^ 32
    → IsMeasured n trips r
    → IsMeasured n (rtt ∷ trips) (count_reply rtt r)
unfolding count_reply total
count_reply-IsMeasured n rtt trips r small h =
    let same = h.summed in
    let as_many = h.counted in
    record {
      requests = h.requests;
      counted = omega arith;
      bounded = (
        (ground arith, ground arith),
        AreWithin-wider r.min_time r.max_time _ _ trips (ground arith) (ground arith) h.bounded,
      );
      attained = AreAttained-more r.min_time r.max_time rtt trips small h.attained;
      summed = omega arith;
    }

judge-IsMeasured :
    (n dest_ip : ℕ) (x : Round) (q : Ping) (trips : List ℕ) (r : PingResult)
    → q.ping_send_time ≡ x.ticks
    → IsMeasured n trips r
    → IsMeasured n (add_trip dest_ip x q trips) (judge dest_ip q r)
unfolding judge
judge-IsMeasured n dest_ip x q trips r kept h =
    elim (Bool-cases (q.ping_reply_received && q.ping_reply_src_ip == dest_ip)) [
      | inl e ↦ rw (e, sym kept) (count_reply-IsMeasured n (round_trip q) trips r (omega arith) h)
      | inr e ↦ rw e h
    ]

one_sent :
    (n : ℕ) (trips : List ℕ) (r : PingResult)
    → IsMeasured n trips r
    → IsMeasured (n + 1) trips (record r { sent = r.sent + 1 })
one_sent n trips r h =
    let a = h.requests in
    record {
      requests = omega arith;
      counted = h.counted;
      bounded = h.bounded;
      attained = h.attained;
      summed = h.summed;
    }

ping_rounds-IsMeasured :
    (n dest_ip : ℕ) (rounds : List Round) (p : Ping) (trips : List ℕ) (r : PingResult)
    → KeepTimes rounds
    → IsMeasured n trips r
    → IsMeasured
        (n + sent_of rounds)
        (trips_of dest_ip rounds p trips)
        (ping_rounds dest_ip rounds p r).1
unfolding ping_rounds ping_round sent_of trips_of
ping_rounds-IsMeasured n dest_ip [] p trips r kept h =
    let e : n ≡ n + 0 = omega arith in subst (λ (m : ℕ). IsMeasured m trips r) e h
ping_rounds-IsMeasured n dest_ip (x ∷ xs) p trips r (kept, keep) h =
    let q : Ping = at_end x p in
    let next : Ping = if is_empty xs then q else x.delays q in
    let judged =
      judge-IsMeasured (n + 1) dest_ip x q trips (record r { sent = r.sent + 1 })
        (kept (at_send x p)) (one_sent n trips r h) in
    let more =
      ping_rounds-IsMeasured (n + 1) dest_ip xs next (add_trip dest_ip x q trips)
        (judge dest_ip q (record r { sent = r.sent + 1 })) keep judged in
    let rest = ping_rounds-IsMeasured n dest_ip xs (at_send x p) trips r keep h in
    let e : n + 1 + sent_of xs ≡ n + (1 + sent_of xs) = omega arith in
    elim (Bool-cases x.accepted) [
      | inl a ↦ rw a (
          subst
            (λ (m : ℕ).
              IsMeasured m (trips_of dest_ip xs next (add_trip dest_ip x q trips))
                (ping_rounds dest_ip xs next (judge dest_ip q (record r { sent = r.sent + 1 }))).1)
            e more)
      | inr a ↦ rw a rest
    ]

started-IsMeasured : IsMeasured 0 [] started
unfolding total
started-IsMeasured = record {
  requests = refl;
  counted = refl;
  bounded = tt;
  attained = (refl, refl);
  summed = refl;
}

-- Whatever arrives during the waits, if it leaves the time of the request alone: icmp_ping sends as
-- many requests as icmp_send_echo_request accepts, and counts as many replies as there are rounds
-- with an accepted request in which, since the request, a reply came and the last one is from the
-- host. A round trip is the time of that reply less the time of the request, modulo 2 ^ 64 and
-- 2 ^ 32; the least and the greatest time of the result are bounds of the round trips and are among
-- them, if there are any, and the total is their sum modulo 2 ^ 32.
pub icmp_ping-IsMeasured :
    (dest_ip : ℕ) (rounds : List Round) (p : Ping)
    → KeepTimes rounds
    → IsMeasured (sent_of rounds) (trips_of dest_ip rounds p []) (icmp_ping dest_ip rounds p).1
unfolding icmp_ping
icmp_ping-IsMeasured dest_ip rounds p kept =
    let e : 0 + sent_of rounds ≡ sent_of rounds = omega arith in
    subst
      (λ (m : ℕ).
        IsMeasured m (trips_of dest_ip rounds p []) (ping_rounds dest_ip rounds p started).1)
      e (ping_rounds-IsMeasured 0 dest_ip rounds p [] started kept started-IsMeasured)
