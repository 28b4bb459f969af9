-- ===== src/Policy/Bounds.antt =====
-- What every loaded policy satisfies: its limits, its leases and its place.
use gpthands.Prelude.{
  inl, inr, ℕ, ◌+◌, ◌*◌, ◌≤◌, String, false, Option, none, some, ◌≡◌, refl, arith, ok,
}
use gpthands.Prelude.Errors.{Result-cases}
use gpthands.Json.{ℤ, Fields}
use gpthands.Time.{before, later_by, before_trans_not}
use gpthands.Policy.Defs.{
  Policy, FilePath, live, allow_write, allow_process, allow_network_commands,
}
use gpthands.Policy.Paths.{inside}
use gpthands.Policy.Load.{
  FromIso, Site, load, build, read_policy, int_value, in_range, check_lease, too_long,
}

int_value-bounds :
    (raw : Fields) (name : String) (default minimum maximum n : ℕ)
    → int_value raw name default minimum maximum ≡ ok n
    → (minimum ≤ n) × (n ≤ maximum)
unfolding int_value in_range
int_value-bounds raw name default minimum maximum n h = ground arith

-- The lease ends at most 24 hours and a second after the load.
abbrev pub EndsBy : ℤ → Option ℤ → Type 0
EndsBy now expiry = too_long now expiry ≡ false

-- No lease is live once its longest end has passed.
EndsBy-live :
    (now t : ℤ) (expiry : Option ℤ)
    → EndsBy now expiry
    → before t (later_by now (86400 * 1000000 + 1000000)) ≡ false
    → live t expiry ≡ false
unfolding live too_long
EndsBy-live now t none e h = refl
EndsBy-live now t (some expiry) e h = before_trans_not t _ expiry h e

check_lease-EndsBy :
    (now : ℤ) (name : String) (expiry : Option ℤ) {u : Unit {0}}
    → check_lease now name expiry ≡ ok u
    → EndsBy now expiry
unfolding check_lease
check_lease-EndsBy now name expiry h = ground arith

pub record IsBounded (now : ℤ) (p : Policy) : Type 0 where
  pub read_low : 1 ≤ p.max_read_bytes
  pub read_high : p.max_read_bytes ≤ 20000000
  pub write_low : 1 ≤ p.max_write_bytes
  pub write_high : p.max_write_bytes ≤ 20000000
  pub command_low : 1 ≤ p.max_command_seconds
  pub command_high : p.max_command_seconds ≤ 600
  pub output_low : 1000 ≤ p.max_output_bytes
  pub output_high : p.max_output_bytes ≤ 5000000
  pub requests_low : 1 ≤ p.max_requests_per_minute
  pub requests_high : p.max_requests_per_minute ≤ 6000
  pub concurrent_low : 1 ≤ p.max_concurrent_actions
  pub concurrent_high : p.max_concurrent_actions ≤ 64
  pub queue_high : p.max_queue_seconds ≤ 30
  pub write_lease : EndsBy now p.write_lease_until
  pub process_lease : EndsBy now p.process_lease_until
  pub network_lease : EndsBy now p.network_lease_until
  pub version : p.schema_version ≡ 3

module _ (from_iso : FromIso) (now : ℤ) (root path : FilePath) (raw : Fields) (p : Policy)
    (built : build from_iso now root path raw ≡ ok p) where
  build-int_value :
      (int_value raw "max_read_bytes" 1000000 1 20000000 ≡ ok p.max_read_bytes)
      × (int_value raw "max_write_bytes" 1000000 1 20000000 ≡ ok p.max_write_bytes)
      × (int_value raw "max_command_seconds" 30 1 600 ≡ ok p.max_command_seconds)
      × (int_value raw "max_output_bytes" 200000 1000 5000000 ≡ ok p.max_output_bytes)
      × (int_value raw "max_requests_per_minute" 120 1 6000 ≡ ok p.max_requests_per_minute)
      × (int_value raw "max_concurrent_actions" 4 1 64 ≡ ok p.max_concurrent_actions)
      × (int_value raw "max_queue_seconds" 2 0 30 ≡ ok p.max_queue_seconds)
      × (p.schema_version ≡ 3)
  unfolding build
  build-int_value = ground arith

  build-check_lease :
      (check_lease now "write_lease_until" p.write_lease_until ≡ ok tt)
      × (check_lease now "process_lease_until" p.process_lease_until ≡ ok tt)
      × (check_lease now "network_lease_until" p.network_lease_until ≡ ok tt)
  unfolding build
  build-check_lease = ground arith

  build-IsBounded : IsBounded now p
  build-IsBounded =
      let (read, write, command, output, requests, concurrent, queue, version) = build-int_value in
      let (wl, pl, nl) = build-check_lease in
      let b1 = int_value-bounds raw "max_read_bytes" 1000000 1 20000000 _ read in
      let b2 = int_value-bounds raw "max_write_bytes" 1000000 1 20000000 _ write in
      let b3 = int_value-bounds raw "max_command_seconds" 30 1 600 _ command in
      let b4 = int_value-bounds raw "max_output_bytes" 200000 1000 5000000 _ output in
      let b5 = int_value-bounds raw "max_requests_per_minute" 120 1 6000 _ requests in
      let b6 = int_value-bounds raw "max_concurrent_actions" 4 1 64 _ concurrent in
      let b7 = int_value-bounds raw "max_queue_seconds" 2 0 30 _ queue in
      record {
        read_low = b1.0;
        read_high = b1.1;
        write_low = b2.0;
        write_high = b2.1;
        command_low = b3.0;
        command_high = b3.1;
        output_low = b4.0;
        output_high = b4.1;
        requests_low = b5.0;
        requests_high = b5.1;
        concurrent_low = b6.0;
        concurrent_high = b6.1;
        queue_high = b7.1;
        write_lease = check_lease-EndsBy now _ _ wl;
        process_lease = check_lease-EndsBy now _ _ pl;
        network_lease = check_lease-EndsBy now _ _ nl;
        version = version;
      }

  build_place : (p.workspace ≡ root) × (p.policy_path ≡ path)
  unfolding build
  build_place = ground arith

module _ (from_iso : FromIso) (now : ℤ) (site : Site) (p : Policy)
    (loaded : load from_iso now site ≡ ok p) where
  load-build :
      (raw : Fields) × (read_policy site ≡ ok raw)
      × (build from_iso now site.root site.path raw ≡ ok p)
      × (inside site.root site.path ≡ false)
      × (site.symlink ≡ false)
  unfolding load
  load-build = elim (Result-cases (read_policy site)) [
    | inl (e, h) ↦ absurd (ground arith)
    | inr (raw, h) ↦ (raw, h, ground arith, ground arith, ground arith)
  ]

  -- Every policy that loads has limits in the documented ranges, leases that end at most 24 hours
  -- and a second after the load, and a file that is no symbolic link and lies outside the workspace.
  pub load-IsBounded :
      IsBounded now p × (inside p.workspace p.policy_path ≡ false) × (site.symlink ≡ false)
  load-IsBounded =
      let (raw, r, b, outside, plain) = load-build in
      let place = build_place from_iso now site.root site.path raw p b in
      (
        build-IsBounded from_iso now site.root site.path raw p b,
        rw (place.0, place.1) outside,
        plain,
      )

  -- Whatever the policy file says, from 24 hours and a second after the load on the policy grants no
  -- capability.
  pub load_expires :
      (t : ℤ)
      → before t (later_by now (86400 * 1000000 + 1000000)) ≡ false
      → (allow_write p t ≡ false)
        × (allow_process p t ≡ false)
        × (allow_network_commands p t ≡ false)
  unfolding allow_write allow_process allow_network_commands
  load_expires t h =
      let (bounded, outside, plain) = load-IsBounded in
      let w = EndsBy-live now t p.write_lease_until bounded.write_lease h in
      let x = EndsBy-live now t p.process_lease_until bounded.process_lease h in
      let n = EndsBy-live now t p.network_lease_until bounded.network_lease h in
      ground (arith, w, x, n)
