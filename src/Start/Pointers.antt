-- ===== src/Start/Pointers.antt =====
-- What is there after a start.
use taskmonitor.Common.{
  stoul, ◌≤◌, some, none, ℕ, ◌≡◌, ◌≢◌, refl, ap, ◌∙◌, Bool, true, false, ◌&&◌, not, List, [], ◌∷◌,
  Option, none, some, ◌==◌, arith, inl, inr, Bool-cases, if◌then◌else◌, Bytes, Outcome, ok, throws,
  traps, runtime_error,
}
use taskmonitor.Options.{
  Config, enable_tcp_server, enable_uds_server, enable_proc_event, enable_proc_acct,
  enable_startup_data, self_lower_priority, get_for, startup_data_cleanup_time,
}
use taskmonitor.Source.{UpdateLane}
use taskmonitor.Application.{
  is_prof_mode, SourceName, proc_registry, sys_proc_stat, sys_proc_mem_info, sys_proc_pressure,
  sys_proc_disk_stats, sys_proc_buddy_info, sys_proc_wireless, sys_proc_vm_stat, Registered,
  registered, when, data_sources,
}
use taskmonitor.Application.Timers.{AreSlow, lane_intervals_total}
use taskmonitor.Options.Intervals.{cleanup, get_for-Converts, any_timeout-Converts}
use taskmonitor.Start.Sizes.{
  EventOpens, AcctOpens, event_sizes_convert, acct_sizes_convert, sizes_convert, event_service_lem,
  acct_service_lem,
}
use taskmonitor.Session.{App}
use taskmonitor.Session.LaneLists.{IsStarted}
use taskmonitor.Servers.{configured_address, UdsPath, uds_start}
use taskmonitor.Servers.Listening.{bind_and_listen-IsPortOf}
use taskmonitor.Start.{
  World, Started, is_on, caught, optional_time, index, is_created, new_tcp_server, start_tcp_server,
  start_uds_server, start_with, start, assembled,
}

is_created-when :
    (b : Bool) (m : SourceName) (lane : UpdateLane) (k : ℕ) (rs : List Registered) (n : SourceName)
    → is_created (when b (registered m lane k) rs) n
      ≡ (if b && (index m == index n) then true else is_created rs n)
unfolding is_created when registered
is_created-when b m lane k rs n = ground arith

is_created-registry :
    (lane : UpdateLane) (k : ℕ) (rs : List Registered) (n : SourceName)
    → is_created (registered proc_registry lane k ∷ rs) n
      ≡ (if 0 == index n then true else is_created rs n)
unfolding is_created registered
is_created-registry lane k rs n = ground arith

is_created-nil : (n : SourceName) → is_created [] n ≡ false
unfolding is_created
is_created-nil n = refl

and_false : (b : Bool) → (b && false) ≡ false
and_false true = refl
and_false false = refl

and_true : (b : Bool) → (b && true) ≡ b
and_true true = refl
and_true false = refl

if_itself : (b : Bool) → (if b then true else false) ≡ b
if_itself true = refl
if_itself false = refl

ruleset created_when =
    (is_created-registry, is_created-when, is_created-nil, and_false, and_true, if_itself)

-- The pointers of the application are those of its sources.
pointers :
    (exists : Bytes → Bool) (a : App)
    → a.has_source ≡ is_created (data_sources exists a.config a.lanes)
    → IsStarted exists a
unfolding data_sources
pointers exists a e = record {
  stat = ap (λ f. f sys_proc_stat) e ∙ simp created_when;
  mem_info = ap (λ f. f sys_proc_mem_info) e ∙ simp created_when;
  pressure = ap (λ f. f sys_proc_pressure) e ∙ simp created_when;
  disk_stats = ap (λ f. f sys_proc_disk_stats) e ∙ simp created_when;
  buddy_info = ap (λ f. f sys_proc_buddy_info) e ∙ simp created_when;
  wireless = ap (λ f. f sys_proc_wireless) e ∙ simp created_when;
  vm_stat = ap (λ f. f sys_proc_vm_stat) e ∙ simp created_when;
}

abbrev pub is_some : {A : Type 0} → Option A → Bool
is_some none = false
is_some (some a) = true

-- Every call of the system and of libnl that opens a socket succeeds, and the configured address, if it
-- is not `any`, resolves. Of the configuration no more is asked.
pub record IsHealthy {Address : Type 0} (w : World Address) (c : Config) : Type 0 where
  pub tcp_opens : w.tcp_socket ≡ true
  pub uds_opens : w.uds_socket ≡ true
  pub event_opens : EventOpens w.event_socket
  pub acct_opens : AcctOpens w.nl_open
  pub address : Option Address
  pub resolves : configured_address w.host_by_name c ≡ ok address

record Created {S : Type 0} (wanted : Bool) (o : Outcome (Option S)) : Type 0 where
  pub service : Option S
  pub created : o ≡ ok service
  pub there : is_some service ≡ wanted

caught-Created : {S : Type 0} (x : S × Outcome (Unit {0})) → x.1 ≢ traps → Created true (caught x)
caught-Created (s, ok u) h = record {
  service = some (record { server = s; in_loop = true });
  created = refl;
  there = refl;
}
caught-Created (s, throws e) h = record {
  service = some (record { server = s; in_loop = false });
  created = refl;
  there = refl;
}
caught-Created (s, traps) h = absurd (h refl)

abbrev either : Bool → Outcome (Unit {0})
either b = if b then ok tt else throws runtime_error

either-ne-traps : (b : Bool) → either b ≢ traps
either-ne-traps true h = cc
either-ne-traps false h = cc

uds_start-ne-traps : (p : UdsPath) (r : Bool) → (uds_start p r).1 ≢ traps
unfolding uds_start
uds_start-ne-traps p r h = ground arith

wanted-Created :
    {S : Type 0} (wanted : Bool) (o : Outcome (Option S))
    → Created true o
    → Created wanted (if wanted then o else ok none)
wanted-Created true o h = h
wanted-Created false o h = record { service = none; created = refl; there = refl }

module _ {Address : Type 0} (w : World Address) (c : Config) (h : IsHealthy w c) where
  start_tcp_server-Created :
      (prof_mode : Bool)
      → Created (is_on enable_tcp_server c && prof_mode) (start_tcp_server w c prof_mode)
  unfolding start_tcp_server
  start_tcp_server-Created prof_mode =
      let (p, _, _, ends) =
        bind_and_listen-IsPortOf w.host_by_name w.bind_ok w.listen_ok c new_tcp_server h.address
          refl h.resolves in
      wanted-Created (is_on enable_tcp_server c && prof_mode) _ (
        rw h.tcp_opens
          (caught-Created _ (rw ends (either-ne-traps (w.bind_ok h.address p && w.listen_ok)))))

  start_uds_server-Created : Created (is_on enable_uds_server c) (start_uds_server w c)
  unfolding start_uds_server
  start_uds_server-Created =
      wanted-Created (is_on enable_uds_server c) _
        (rw h.uds_opens (caught-Created _ (uds_start-ne-traps w.uds_path false)))

-- The time, where it is asked for.
abbrev time_if : Bool → ℕ → Option ℕ
time_if wanted n = if wanted then some n else none

is_some-time_if : (wanted : Bool) (n : ℕ) → is_some (time_if wanted n) ≡ wanted
is_some-time_if true n = refl
is_some-time_if false n = refl

optional_time_lem :
    (wanted : Bool) (o : Outcome ℕ) {n : ℕ}
    → o ≡ ok n
    → optional_time wanted o ≡ ok (time_if wanted n)
optional_time_lem true o h = rw h refl
optional_time_lem false o h = refl

-- What the options ask for, and no more.
pub record IsRight {Address : Type 0} (w : World Address) (c : Config) (t : Started Address)
    : Type 0 where
  pub config_kept : t.app.config ≡ c
  pub lanes_slow : AreSlow t.app.lanes
  pub sources_made : t.sources ≡ data_sources w.exists c t.app.lanes
  pub pointers_set : IsStarted w.exists t.app
  pub tcp_made : is_some t.tcp_server ≡ (is_on enable_tcp_server c && is_prof_mode w.exists c)
  pub uds_made : is_some t.uds_server ≡ is_on enable_uds_server c
  pub event_made : t.app.has_proc_event ≡ is_on enable_proc_event c
  pub acct_made : t.app.has_proc_acct ≡ (is_on enable_proc_acct c && is_prof_mode w.exists c)
  pub data_made : t.app.has_startup_data ≡ (is_on enable_startup_data c && is_prof_mode w.exists c)
  pub cleanup_set : is_some t.cleanup ≡ (is_on enable_startup_data c && is_prof_mode w.exists c)
  pub timeout_slow : 1000000 ≤ t.collector_timeout
  pub priority : t.lowered ≡ (not (is_prof_mode w.exists c) && is_on self_lower_priority c)

-- The end of the start, by whether the buffer sizes convert.
abbrev pub Ends : {Address : Type 0} → World Address → Config → Bool → Type 0
Ends {Address} w c true = (t : Started Address) × (start w c ≡ ok t) × IsRight w c t
Ends w c false = start w c ≡ throws runtime_error

-- Where the sockets open, the netlink calls succeed and the address is `any` or resolves, the start ends without an
-- exception exactly if each buffer size that a service asked for reads converts: TxBufferSize and
-- RxBufferSize to an `int` for the process events, these and MsgBufferSize to a `long` for the accounting
-- in profiling mode. If one does not convert, the start throws a runtime error. Otherwise it ends, even
-- if a server cannot bind, listen or clear its path: the lanes' intervals and the time after which a
-- collector is removed are a second or more; the sources are the ones of the lanes, with each pointer set
-- exactly if its source is there; the servers and services exist exactly if their options ask for them,
-- the TCP server, the accounting and the startup data, with a time to drop it, in profiling mode only; the
-- priority is lowered exactly if the option asks for it in production mode.
pub start-IsRight :
    {Address : Type 0} (w : World Address) (c : Config)
    → IsHealthy w c
    → Ends w c (sizes_convert (is_prof_mode w.exists c) c)
unfolding start start_with assembled
start-IsRight w c h =
    let prof_mode = is_prof_mode w.exists c in
    let (lanes, converted, slow) = lane_intervals_total prof_mode c in
    let cleans = get_for-Converts c cleanup in
    let timeout = any_timeout-Converts c in
    let t = start_tcp_server-Created w c h prof_mode in
    let u = start_uds_server-Created w c h in
    let event = event_service_lem w.event_socket c h.event_opens in
    let acct = acct_service_lem w.nl_open c prof_mode h.acct_opens in
    elim (Bool-cases (if is_on enable_proc_event c then event_sizes_convert c else true)) [
      | inr bad ↦ rw bad (rw (converted, t.created, u.created, event, bad) refl)
      | inl good ↦
          elim (Bool-cases
            (if is_on enable_proc_acct c && prof_mode then acct_sizes_convert c else true)) [
              | inr bad ↦
                  rw (good, bad) (rw (converted, t.created, u.created, event, acct, good, bad) refl)
              | inl fine ↦
                  rw (good, fine)
                    (
                      assembled w c prof_mode lanes t.service u.service (is_on enable_proc_event c)
                          (is_on enable_proc_acct c && prof_mode)
                          (time_if (is_on enable_startup_data c && prof_mode) cleans.number)
                          timeout.number,
                      rw
                          (
                            converted,
                            t.created,
                            u.created,
                            event,
                            good,
                            acct,
                            fine,
                            optional_time_lem (is_on enable_startup_data c && prof_mode)
                                (stoul (get_for startup_data_cleanup_time c)) cleans.converts,
                            timeout.converts,
                          )
                          refl,
                      record {
                        config_kept = refl;
                        lanes_slow = slow;
                        sources_made = refl;
                        pointers_set = pointers w.exists _ refl;
                        tcp_made = t.there;
                        uds_made = u.there;
                        event_made = refl;
                        acct_made = refl;
                        data_made = refl;
                        cleanup_set =
                            is_some-time_if (is_on enable_startup_data c && prof_mode)
                              cleans.number;
                        timeout_slow = timeout.enough;
                        priority = refl;
                      },
                    )
            ]
    ]
