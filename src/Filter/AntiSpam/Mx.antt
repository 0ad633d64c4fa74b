-- ===== src/Filter/AntiSpam/Mx.antt =====
-- The DNS query for MX records that the AntiSpam filter looks for, described by its fields.
use ftpn.Packet.Access.{Access, ok, out_of_bounds, ◌>>=◌, read, read_u16, value_or}
use ftpn.Packet.Dns.{NameScan, dns_ptr, parse_dns_name}
use ftpn.Packet.Dns.Answers.{is_dns_mx_query}
use ftpn.Prelude.{
  ℕ, ◌+◌, ◌-◌, ◌≤◌, ◌<◌, ◌≡◌, ◌≢◌, refl, ap, ◌∙◌, ◌↔◌, inl, inr, true, false, ◌||◌, some, List,
  arith, leb, ltb, length, ◌==◌, Bool-cases, Option-cases,
}

-- A DNS message that is no answer, asks something, and whose first question has the type MX, 15: behind the
-- name of the question, inside the packet.
pub record MxQuery (p : List ℕ) : Type 0 where
  pub dns : ℕ
  pub flags : ℕ
  pub questions : ℕ
  pub type_at : ℕ
  pub message : dns_ptr p ≡ ok (some dns)
  pub has_flags : read p (dns + 2) ≡ ok flags
  pub no_answer : flags < 128
  pub has_questions : read_u16 p (dns + 4) ≡ ok questions
  pub asks : questions ≢ 0
  pub name_ends : (s : NameScan) × (parse_dns_name p dns (dns + 12) ≡ ok s) × (s.cur ≡ type_at)
  pub behind : dns ≤ type_at
  pub inside : type_at + 2 ≤ length p
  pub is_mx : read_u16 p type_at ≡ ok 15

bind-ok :
    {A B : Type 0} (x : Access A) (k : A → Access B) (b : B)
    → (x >>= k) ≡ ok b
    → (a : A) × (x ≡ ok a) × (k a ≡ ok b)
bind-ok (ok a) k b h = (a, refl, h)
bind-ok out_of_bounds k b h = absurd (cc h)

MxQuery-sound : (p : List ℕ) → is_dns_mx_query p ≡ ok true → MxQuery p
unfolding is_dns_mx_query
MxQuery-sound p h =
    let (o, eo, h1) = bind-ok (dns_ptr p) _ true h in
    elim (Option-cases o) [
      | inl n ↦ let h2 = rw n at h1 in absurd (cc h2)
      | inr (d, n) ↦
          let h2 = rw n at h1 in
          let (flags, ef, h3) = bind-ok (read p (d + 2)) _ true h2 in
          elim (Bool-cases (leb 128 flags)) [
            | inl big ↦ let h4 = rw big at h3 in absurd (cc h4)
            | inr small ↦
                let h4 = rw small at h3 in
                let (count, ec, h5) = bind-ok (read_u16 p (d + 4)) _ true h4 in
                elim (Bool-cases (count == 0)) [
                  | inl zero_count ↦ let h6 = rw zero_count at h5 in absurd (cc h6)
                  | inr asks ↦
                      let h6 = rw asks at h5 in
                      let (s, es, h7) = bind-ok (parse_dns_name p d (d + 12)) _ true h6 in
                      elim (Bool-cases (ltb s.cur d || ltb (length p - s.cur) 2)) [
                        | inl out ↦ let h8 = rw out at h7 in absurd (cc h8)
                        | inr fits ↦
                            let h8 = rw fits at h7 in
                            let (type, et, h9) = bind-ok (read_u16 p s.cur) _ true h8 in
                            let is_mx : type ≡ 15 = ground (arith, h9) in
                            record {
                              dns = d;
                              flags = flags;
                              questions = count;
                              type_at = s.cur;
                              message = rw n at eo;
                              has_flags = ef;
                              no_answer = ground (arith, small);
                              has_questions = ec;
                              asks = ground (arith, asks);
                              name_ends = (s, es, refl);
                              behind = ground (arith, fits);
                              inside = ground (arith, fits);
                              is_mx = et ∙ ap ok is_mx;
                            }
                      ]
                ]
          ]
    ]

MxQuery-complete : (p : List ℕ) → MxQuery p → is_dns_mx_query p ≡ ok true
unfolding is_dns_mx_query
MxQuery-complete p q =
    let (s, es, at_type) = q.name_ends in
    let small : leb 128 q.flags ≡ false = ground (arith, q.no_answer) in
    let asks : q.questions == 0 ≡ false = ground (arith, q.asks) in
    let fits : (ltb s.cur q.dns || ltb (length p - s.cur) 2) ≡ false =
      ground (arith, q.behind, q.inside, at_type) in
    let is_mx : read_u16 p s.cur ≡ ok 15 = rw at_type q.is_mx in
    rw (q.message, q.has_flags, small, q.has_questions, asks, es, fits, is_mx) refl

pub MxQuery-iff : (p : List ℕ) → (value_or false (is_dns_mx_query p) ≡ true) ↔ MxQuery p
MxQuery-iff p = (λ h. MxQuery-sound p (ground (arith, h)), λ q. rw (MxQuery-complete p q) refl)
