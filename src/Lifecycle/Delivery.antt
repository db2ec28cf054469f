-- ===== src/Lifecycle/Delivery.antt =====
-- The pump of pkg/lifecycle/manager.go over the log of pkg/wal, with a neb that accepts every message.
use nile.Prelude.{
  ℕ, suc, ◌+◌, ◌-◌, ◌≤◌, ◌<◌, ◌==◌, u64, ◌≡◌, refl, sym, ap, ◌∙◌, subst, arith, Bytes, IsByte, true,
  false, none, some, List, [], ◌∷◌, ◌++◌, if◌then◌else◌, length, take, drop, get_elem?, All,
  append_assoc, append-nil,
}
use nile.Wal.Disk.{healthy}
use nile.Wal.Log.{Wal, retention_exceeded, total_size}
use nile.Wal.Log.Delivery.{next_unprocessed}
use nile.Wal.Stream.{Parts, messages, count, segments_from, Holds}
use nile.Wal.Stream.Growth.{count-length}
use nile.Wal.Stream.Delivery.{message_at, next_unprocessed-Holds, get_elem?-some_lt, get_elem?-lt}
use nile.Wal.Stream.Cursor.{mark_processed-Holds}
use nile.Wal.Stream.Order.{one_past}
use nile.Wal.Backend.{wal_store}
use nile.Transport.{Transport}
use nile.Lifecycle.States.{idle, same_state}
use nile.Lifecycle.Manager.{Manager, rounds, stop_signalled, process_message}
use nile.Lifecycle.Pump.{
  wait_tick, do_retention, running, continue, read_next, run_round, looked, pump_round, after_round,
  pump, checked, with_retention,
}
use nile.Lifecycle.Accepted.{accepted, process_message-accepted}
use nile.Lifecycle.Accepting.{Accepts, numbered, All-get_elem?, take-drop-some, within_limits}

module _ {T X : Type 0} (transport : Transport T) (Ready : T → Type 0) (seen : T → List X)
    (entry : ℕ → Bytes → X) (parts : Parts) where
  -- A manager that serves a log of `parts`, with room below the retention limits.
  pub record Serves (m : Manager Wal T) : Type 0 where
    pub holds : Holds m.backend parts
    pub opened : m.backend.log.closed_flag ≡ false
    pub few : count parts ≤ m.backend.log.opts.max_messages
    pub light : total_size (segments_from 0 parts) ≤ m.backend.log.opts.max_bytes
    pub bytes : All (All IsByte) (messages parts)
    pub idles : m.state ≡ idle
    pub tries : (r : ℕ) × (rounds m.max_retries ≡ suc r)
    pub ready : Ready m.link
    pub unfinished : m.done ≡ false

  abbrev consumed_in : Manager Wal T → ℕ
  consumed_in m = m.backend.log.cur.consumed

  abbrev Served : Manager Wal T → Bytes → Manager Wal T → Type 0
  Served m p m' =
      Serves m'
      × (consumed_in m' ≡ suc (consumed_in m))
      × (m'.stop_in ≡ m.stop_in)
      × (seen m'.link ≡ seen m.link ++ (entry (consumed_in m) p ∷ []))

  process_message-Served :
      Accepts transport Ready seen entry
      → (m : Manager Wal T) (p : Bytes) → Serves m
      → get_elem? (messages parts) (consumed_in m) ≡ some p
      → (m' : Manager Wal T) × (process_message (wal_store healthy) transport (consumed_in m) p m
          ≡ (none, m'))
        × Served m p m'
  process_message-Served neb m p s e =
      let (w', stored_eq, h', cur, _, opened', kept) =
        mark_processed-Holds m.backend parts (consumed_in m) s.holds s.opened in
      let (a, ans, quiet, ready', seen') =
        neb.accepts (u64 (m.req_id + 1)) (consumed_in m) p m.link (omega arith)
          (omega (
            arith,
            get_elem?-some_lt (messages parts) (consumed_in m) e,
            count-length parts,
            s.holds.clean.small,
          ))
          (All-get_elem? (messages parts) (consumed_in m) s.bytes e) s.ready in
      (
        accepted (wal_store healthy) transport (consumed_in m) p m w',
        process_message-accepted (wal_store healthy) transport (consumed_in m) p m s.tries.0 a w'
            s.idles s.tries.1 ans quiet stored_eq,
        (
          record {
            holds = h';
            opened = opened';
            few = subst (λ o. count parts ≤ o.max_messages) (sym kept) s.few;
            light =
                subst (λ o. total_size (segments_from 0 parts) ≤ o.max_bytes) (sym kept) s.light;
            bytes = s.bytes;
            idles = refl;
            tries = s.tries;
            ready = ready';
            unfinished = s.unfinished;
          },
          ap (λ c. c.consumed) cur
              ∙ one_past m.backend.log.cur (
                  omega (
                    arith,
                    get_elem?-some_lt (messages parts) (consumed_in m) e,
                    count-length parts,
                    s.holds.clean.small,
                  )),
          refl,
          seen',
        ),
      )

  not_exceeded :
      (m : Manager Wal T)
      → Serves m
      → consumed_in m ≤ count parts
      → retention_exceeded m.backend.log ≡ false
  not_exceeded m s h = within_limits m.backend.log (omega (arith, s.few)) (
      subst (λ segs. total_size segs ≤ m.backend.log.opts.max_bytes)
        (sym (ap (λ v. v.log.segments) s.holds.state)) s.light)

  run_round-Served :
      Accepts transport Ready seen entry
      → (path : Bytes) (m : Manager Wal T) (p : Bytes) → Serves m
      → get_elem? (messages parts) (consumed_in m) ≡ some p
      → (m' : Manager Wal T) × (run_round (wal_store healthy) transport path m ≡ continue m')
        × Served m p m'
  run_round-Served neb path m p s e =
      let (m', done, (s', c', k', v')) = process_message-Served neb m p s e in
      (
        m',
        ap
              (λ t.
                if same_state t idle
                then read_next (wal_store healthy) transport path m
                    (next_unprocessed healthy m.backend)
                else wait_tick (wal_store healthy) transport m)
              s.idles
            ∙ ap (read_next (wal_store healthy) transport path m) (
                next_unprocessed-Holds m.backend parts s.holds s.opened
                ∙ ap (λ o. (message_at (consumed_in m) o, m.backend)) e)
            ∙ ap
                (checked (wal_store healthy) transport (λ x.
                  checked (wal_store healthy) transport continue
                    (with_retention (wal_store healthy) transport path x)))
                done
            ∙ ap
                (λ b.
                  checked (wal_store healthy) transport continue
                    (if b then do_retention (wal_store healthy) transport path m' else (none, m')))
                (not_exceeded m' s' (
                  omega (
                    arith,
                    c',
                    count-length parts,
                    get_elem?-some_lt (messages parts) (consumed_in m) e,
                  ))),
        (s', c', k', v'),
      )

  pump_round-Served :
      Accepts transport Ready seen entry
      → (path : Bytes) (m : Manager Wal T) (p : Bytes) → Serves m
      → 0 < m.stop_in
      → get_elem? (messages parts) (consumed_in m) ≡ some p
      → (m' : Manager Wal T) × (pump_round (wal_store healthy) transport path m ≡ continue m')
        × Serves m'
        × (consumed_in m' ≡ suc (consumed_in m))
        × (suc m'.stop_in ≡ m.stop_in)
        × (seen m'.link ≡ seen m.link ++ (entry (consumed_in m) p ∷ []))
  unfolding pump_round stop_signalled
  pump_round-Served neb path m p s room e =
      let looked_at : Manager Wal T = record m { stop_in = m.stop_in - 1 } in
      let (m', done, (s', c', k', v')) =
        run_round-Served neb path looked_at p
          (record {
            holds = s.holds;
            opened = s.opened;
            few = s.few;
            light = s.light;
            bytes = s.bytes;
            idles = s.idles;
            tries = s.tries;
            ready = s.ready;
            unfinished = s.unfinished;
          })
          e in
      (
        m',
        ap
              (λ b.
                looked (wal_store healthy) transport path
                  (if b then (true, m) else (false, looked_at)))
              {x = m.stop_in == 0} {y = false} (ground arith)
            ∙ done,
        s',
        c',
        omega (arith, k'),
        v',
      )

  pub pump-Served :
      Accepts transport Ready seen entry
      → (paths : List Bytes) (m : Manager Wal T) → Serves m
      → length paths ≤ m.stop_in
      → consumed_in m + length paths ≤ count parts
      → (m' : Manager Wal T) × ((more : List Bytes)
          → pump (wal_store healthy) transport (paths ++ more) m
            ≡ pump (wal_store healthy) transport more m')
        × Serves m'
        × (m'.stop_in + length paths ≡ m.stop_in)
        × (consumed_in m' ≡ consumed_in m + length paths)
        × (seen m'.link
            ≡ seen m.link
              ++ numbered entry
                  (consumed_in m)
                  (take (length paths) (drop (consumed_in m) (messages parts))))
  unfolding pump
  pump-Served neb [] m s room left =
      (m, λ more. refl, s, omega arith, omega arith, sym (append-nil (seen m.link)))
  pump-Served neb (path ∷ paths) m s room left =
      let c = consumed_in m in
      let ms = messages parts in
      let n = length paths in
      let (p, e) = get_elem?-lt ms c (omega (arith, count-length parts)) in
      let (m1, step, s1, c1, k1, v1) = pump_round-Served neb path m p s (omega arith) e in
      let (m2, goes_on, s2, k2, c2, v2) = pump-Served neb paths m1 s1 (omega arith) (omega arith) in
      (
        m2,
        λ more.
            ap
              (after_round (wal_store healthy) transport
                (pump (wal_store healthy) transport (paths ++ more)))
              step
            ∙ goes_on more,
        s2,
        omega (arith, k1, k2),
        omega (arith, c1, c2),
        v2
            ∙ ap (λ t. t ++ numbered entry (consumed_in m1) (take n (drop (consumed_in m1) ms))) v1
            ∙ append_assoc (seen m.link) (entry c p ∷ []) _
            ∙ ap (λ (k : ℕ). seen m.link ++ (entry c p ∷ numbered entry k (take n (drop k ms)))) c1
            ∙ ap (λ ps. seen m.link ++ numbered entry c ps) (sym (take-drop-some n c ms e)),
      )

-- The pump over a log on a healthy system and with a neb that accepts every message: in as many rounds as
-- there are snapshot names the neb takes in exactly as many messages, the next ones from the cursor on, each
-- once, in order and with its number; the cursor moves past them, and the pump still serves the log. There
-- are that many messages, the retention limits are not reached, and Stop does not come before.
pub pump_delivers :
    {T X : Type 0} (transport : Transport T) (Ready : T → Type 0) (seen : T → List X)
    (entry : ℕ → Bytes → X) (parts : Parts) (paths : List Bytes) (m : Manager Wal T)
    → Accepts transport Ready seen entry
    → Serves transport Ready seen entry parts m
    → length paths ≤ m.stop_in
    → m.backend.log.cur.consumed + length paths ≤ count parts
    → (m' : Manager Wal T) × (pump (wal_store healthy) transport paths m ≡ (running, m'))
      × Serves transport Ready seen entry parts m'
      × (m'.backend.log.cur.consumed ≡ m.backend.log.cur.consumed + length paths)
      × (seen m'.link
          ≡ seen m.link
            ++ numbered entry m.backend.log.cur.consumed
                (take (length paths) (drop m.backend.log.cur.consumed (messages parts))))
unfolding pump
pump_delivers transport Ready seen entry parts paths m neb serves room left =
    let (m', goes_on, s', _, c', v') =
      pump-Served transport Ready seen entry parts neb paths m serves room left in
    (
      m',
      ap (λ ps. pump (wal_store healthy) transport ps m) (sym (append-nil paths)) ∙ goes_on [],
      s',
      c',
      v',
    )
