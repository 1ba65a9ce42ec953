-- ===== src/Netrelay/Options/Starts.antt =====
-- test_suite/netrelay/relay.c: with which options a relay program goes on to its interfaces.
use linux_device_driver.Base.{
  ℕ, zero, suc, ◌<◌, ◌≡◌, refl, ap, ◌∙◌, Bool, true, false, Option, none, some, List, [], ◌∷◌,
  if◌then◌else◌, ltb, ◌==◌, arith,
}
use linux_device_driver.Base.Text.{Text}
use linux_device_driver.Netrelay.{Packet, relay_find, relay_register}
use linux_device_driver.Netrelay.Options.{
  Opt, net_interface, service_interface, use_syslog, debug, enable_eoe, enable_vlan, enable_filter,
  unknown_option, Settings, defaults, complete, find_and_start, parse_loop, parse_args,
  service_priv, fails, starts, main_start,
}

-- No option is unknown.
abbrev pub Known : List Opt → Type 0
Known [] = Unit
Known (unknown_option ∷ os) = ⊥
Known (net_interface t ∷ os) = Known os
Known (service_interface t ∷ os) = Known os
Known (use_syslog ∷ os) = Known os
Known (debug ∷ os) = Known os
Known (enable_eoe ∷ os) = Known os
Known (enable_vlan ∷ os) = Known os
Known (enable_filter ∷ os) = Known os

-- The last interface given, or `d`.
abbrev pub last_net : List Opt → Option Text → Option Text
last_net [] d = d
last_net (net_interface t ∷ os) d = last_net os (some t)
last_net (_ ∷ os) d = last_net os d

abbrev pub last_service : List Opt → Option Text → Option Text
last_service [] d = d
last_service (service_interface t ∷ os) d = last_service os (some t)
last_service (_ ∷ os) d = last_service os d

-- The relay that the last of -E and -V names, or `d`.
abbrev pub chosen : List Opt → ℕ → ℕ
chosen [] d = d
chosen (enable_eoe ∷ os) d = chosen os 1
chosen (enable_vlan ∷ os) d = chosen os 0
chosen (_ ∷ os) d = chosen os d

-- Whether -E or -V, -F, -s is among the options.
abbrev pub has_relay : List Opt → Bool → Bool
has_relay [] d = d
has_relay (enable_eoe ∷ os) d = has_relay os true
has_relay (enable_vlan ∷ os) d = has_relay os true
has_relay (_ ∷ os) d = has_relay os d

abbrev pub has_filter : List Opt → Bool → Bool
has_filter [] d = d
has_filter (enable_filter ∷ os) d = has_filter os true
has_filter (_ ∷ os) d = has_filter os d

abbrev has_syslog : List Opt → Bool → Bool
has_syslog [] d = d
has_syslog (use_syslog ∷ os) d = has_syslog os true
has_syslog (_ ∷ os) d = has_syslog os d

abbrev level : List Opt → ℕ → ℕ
level [] d = d
level (debug ∷ os) d = level os (if ltb d 2 then suc d else d)
level (_ ∷ os) d = level os d

abbrev parsed : List Opt → Settings → Settings
parsed os s = record {
  net_itf = last_net os s.net_itf;
  service_itf = last_service os s.service_itf;
  syslog_enabled = has_syslog os s.syslog_enabled;
  log_level = level os s.log_level;
  service_enabled = has_relay os s.service_enabled;
  relay_id = chosen os s.relay_id;
  filter_enable = has_filter os s.filter_enable;
}

parse_all : (os : List Opt) (s : Settings) → Known os → parse_loop os s ≡ (true, parsed os s)
unfolding parse_loop
parse_all [] s k = refl
parse_all (unknown_option ∷ os) s k = absurd k
parse_all (net_interface t ∷ os) s k = parse_all os (record s { net_itf = some t }) k
parse_all (service_interface t ∷ os) s k = parse_all os (record s { service_itf = some t }) k
parse_all (use_syslog ∷ os) s k = parse_all os (record s { syslog_enabled = true }) k
parse_all (debug ∷ os) s k =
    parse_all os
      (record s { log_level = if ltb s.log_level 2 then suc s.log_level else s.log_level }) k
parse_all (enable_eoe ∷ os) s k = parse_all os (record s { service_enabled = true; relay_id = 1 }) k
parse_all (enable_vlan ∷ os) s k =
    parse_all os (record s { service_enabled = true; relay_id = 0 }) k
parse_all (enable_filter ∷ os) s k = parse_all os (record s { filter_enable = true }) k

both_given :
    (n t : Option Text) (s : Settings) {net service : Text}
    → n ≡ some net
    → t ≡ some service
    → (elim n [ none ↦ none | some _ ↦ elim t [ none ↦ none | some _ ↦ some s ] ]) ≡ some s
both_given none t s h k = absurd (cc)
both_given (some n) none s h k = absurd (cc)
both_given (some n) (some t) s h k = refl

args_given :
    (os : List Opt) (net service : Text)
    → Known os
    → last_net os none ≡ some net
    → last_service os none ≡ some service
    → parse_args os ≡ some (parsed os defaults)
unfolding parse_args
args_given os net service k n t =
    ap complete (parse_all os defaults k)
    ∙ both_given (last_net os none) (last_service os none) (parsed os defaults) n t

chosen_bound : (os : List Opt) (d : ℕ) → d < 2 → chosen os d < 2
chosen_bound [] d h = h
chosen_bound (net_interface t ∷ os) d h = chosen_bound os d h
chosen_bound (service_interface t ∷ os) d h = chosen_bound os d h
chosen_bound (use_syslog ∷ os) d h = chosen_bound os d h
chosen_bound (debug ∷ os) d h = chosen_bound os d h
chosen_bound (enable_eoe ∷ os) d h = chosen_bound os 1 (omega arith)
chosen_bound (enable_vlan ∷ os) d h = chosen_bound os 0 (omega arith)
chosen_bound (enable_filter ∷ os) d h = chosen_bound os d h
chosen_bound (unknown_option ∷ os) d h = chosen_bound os d h

-- The one relay that is registered is found under its own id only.
registered :
    (id : ℕ) (info : Packet) (s : Settings)
    → id < 2
    → s.relay_id < 2
    → find_and_start s (relay_register (none ∷ none ∷ []) id (some info)) ≡ (
        if s.relay_id == id
        then starts info s.filter_enable
            (service_priv s.service_enabled 1)
            (service_priv s.service_enabled 2)
        else fails)
unfolding relay_register relay_find
registered id info s h k = by_ids id s.relay_id h k
  where
    by_ids :
        (id c : ℕ)
        → id < 2
        → c < 2
        → find_and_start
            (record s { relay_id = c })
            (relay_register (none ∷ none ∷ []) id (some info))
          ≡ (if c == id
              then starts info s.filter_enable
                  (service_priv s.service_enabled 1)
                  (service_priv s.service_enabled 2)
              else fails)
    by_ids zero zero h k = refl
    by_ids zero (suc zero) h k = refl
    by_ids zero (suc (suc c)) h k = absurd (omega arith)
    by_ids (suc zero) zero h k = refl
    by_ids (suc zero) (suc zero) h k = refl
    by_ids (suc zero) (suc (suc c)) h k = absurd (omega arith)
    by_ids (suc (suc id)) c h k = absurd (omega arith)

started :
    (id : ℕ) (info : Packet) (os : List Opt) (s : Settings)
    → parse_args os ≡ some s
    → main_start id info os ≡ find_and_start s (relay_register (none ∷ none ∷ []) id (some info))
unfolding main_start
started id info os s e = rw (main_start, e) refl

-- A command line without unknown options that gives both interfaces, in a program that is linked with
-- the filter of the relay `id`, 0 or 1: the program goes on to its interfaces with this relay exactly
-- when `id` is what the last of -E (1) and -V (0) names, or 0 if there is neither; it attaches the
-- filter exactly when -F is given, and edits packets exactly when there is -E or -V. In every other
-- case it fails.
pub relay_starts :
    (id : ℕ) (info : Packet) (os : List Opt) (net service : Text)
    → id < 2
    → Known os
    → last_net os none ≡ some net
    → last_service os none ≡ some service
    → main_start id info os ≡ (
        if chosen os 0 == id
        then starts info
            (has_filter os false)
            (if has_relay os false then 1 else 0)
            (if has_relay os false then 2 else 0)
        else fails)
relay_starts id info os net service h k n t =
    started id info os (parsed os defaults) (args_given os net service k n t)
    ∙ registered id info (parsed os defaults) h (chosen_bound os 0 (omega arith))
