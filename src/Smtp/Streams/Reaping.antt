-- ===== src/Smtp/Streams/Reaping.antt =====
-- Sessions that time out, in smtp_server.py.
use rdt_mail_service.Prelude.{
  ℕ, ◌-◌, ◌≡◌, refl, Bool, false, ◌||◌, List, [], ◌∷◌, none, some, arith, ◌==◌, ltb, Dict, lookup,
  lookup-erase, Option, sym, contains, contains-lookup, Option-cases, if◌then◌else◌,
}
use rdt_mail_service.Rdt.Dispatcher.{Addr, addr_eq}
use rdt_mail_service.Smtp.Server.{SmtpServer, cleanup_session}
use rdt_mail_service.Smtp.Streams.{stale_addrs, reap}

abbrev pub listed : Addr → List Addr → Bool
listed a [] = false
listed a (b ∷ bs) = (b == a) || listed a bs

reap-last_activity :
    (stale : List Addr) (srv : SmtpServer) (a : Addr)
    → lookup a (reap stale srv).last_activity
      ≡ (if listed a stale then none else lookup a srv.last_activity)
unfolding reap cleanup_session
reap-last_activity [] srv a = refl
reap-last_activity (b ∷ bs) srv a =
    ground
      (arith, reap-last_activity bs (cleanup_session b srv) a, lookup-erase b a srv.last_activity)

reap-sessions :
    (stale : List Addr) (srv : SmtpServer) (a : Addr)
    → lookup a (reap stale srv).sessions ≡ (if listed a stale then none else lookup a srv.sessions)
unfolding reap cleanup_session
reap-sessions [] srv a = refl
reap-sessions (b ∷ bs) srv a =
    ground (arith, reap-sessions bs (cleanup_session b srv) a, lookup-erase b a srv.sessions)

-- No address has two times.
abbrev pub AllOnce : Dict Addr ℕ → Type 0
AllOnce [] = Unit
AllOnce ((a, ts) ∷ activity) = (contains a activity ≡ false) × AllOnce activity

-- The address sent something, the last time more than 300 seconds ago.
abbrev pub is_old : ℕ → Option ℕ → Bool
is_old now none = false
is_old now (some ts) = ltb 300 (now - ts)

listed-stale_addrs :
    (now : ℕ) (activity : Dict Addr ℕ) (a : Addr)
    → AllOnce activity
    → listed a (stale_addrs now activity) ≡ is_old now (lookup a activity)
unfolding stale_addrs lookup
listed-stale_addrs now [] a u = refl
listed-stale_addrs now ((b, t) ∷ rest) a (f, u) = ground (
  arith,
  listed-stale_addrs now rest a u,
  contains-lookup b rest,
  addr_eq.beq_iff b a,
  Option-cases (lookup b rest),
)

-- No address has two times of its last packet. Then the reaper takes away the session, and the
-- time, of an address exactly if its last packet came more than 300 seconds ago, and leaves every
-- other session and time as it was.
pub reap-outcome :
    (now : ℕ) (srv : SmtpServer) (a : Addr)
    → AllOnce srv.last_activity
    → let after = reap (stale_addrs now srv.last_activity) srv in
      let old = is_old now (lookup a srv.last_activity) in
      (lookup a after.sessions ≡ (if old then none else lookup a srv.sessions))
      × (lookup a after.last_activity ≡ (if old then none else lookup a srv.last_activity))
reap-outcome now srv a u = rw (sym (listed-stale_addrs now srv.last_activity a u)) (
  reap-sessions (stale_addrs now srv.last_activity) srv a,
  reap-last_activity (stale_addrs now srv.last_activity) srv a,
)
