-- ===== src/Gui/Session/Steps.antt =====
-- gui/main.c: the steps of a session of the privileged process, each by itself.
use pidnl.Base.{
  ℕ, zero, suc, ◌≤◌, ◌<◌, ◌≢◌, is_zero, not, List, [], ◌∷◌, Text, length, Option, none, some, arith,
}
use pidnl.System.{Call, M}
use pidnl.System.Ledger.{Resource, last-Uses, Uses, call-Uses, bind-Uses, if-Uses, pure-Uses}
use pidnl.System.Returns.{Condition, Returns, call-Returns, bind-Returns, if-Returns, pure-Returns}
use pidnl.Discovery.{ProcessInfo, ProcessList}
use pidnl.Discovery.Query.{Netlink, get_network_processes}
use pidnl.Discovery.Owned.{
  Memory, wait, owned, destroy_process_list-Uses, find_network_processes-Uses,
  destroy_process_list-Returns, find_network_processes-Returns,
}
use pidnl.Ratelimit.Names.{path_max}
use pidnl.Ratelimit.Init.{ratelimit_init}
use pidnl.Ratelimit.Mounts.Held.{get_cgroup2_mount-Uses}
use pidnl.Ratelimit.Mounts.Returns.{get_cgroup2_mount-Returns}
use pidnl.Ratelimit.Query.Held.{get_rate_limits_from_cgroup-Uses}
use pidnl.Ratelimit.Query.Returns.{get_rate_limits_from_cgroup-Returns}
use pidnl.Ratelimit.Cleanup.Held.{ratelimit_cleanup_all-Uses}
use pidnl.Ratelimit.Cleanup.Returns.{ratelimit_cleanup_all-Returns}
use pidnl.Gui.{handle_clean_cmd}
use pidnl.Gui.Server.{
  look_up, print_list, handle_list_cmd, fgets, line_room, Reaction, goes_on, quits, after_command,
}

pub ratelimit_init-Uses : (r : Resource) → Uses r 0 ratelimit_init (λ _. 0)
unfolding ratelimit_init
ratelimit_init-Uses r = bind-Uses r 0 (call-Uses r Call.cgroup_init) (omega arith) λ ret.
    if-Uses r (not (is_zero ret)) (λ _. pure-Uses r _ (omega arith))
      λ _.
        bind-Uses r 0 (get_cgroup2_mount-Uses r path_max) (omega arith)
          λ mount. pure-Uses r _ (omega arith)

pub ratelimit_init-Returns : (P : Condition) → Returns P ratelimit_init
unfolding ratelimit_init
ratelimit_init-Returns P = bind-Returns P (call-Returns P Call.cgroup_init) λ ret.
    if-Returns P (not (is_zero ret)) (λ _. pure-Returns P _)
      λ _. bind-Returns P (get_cgroup2_mount-Returns P path_max) λ mount. pure-Returns P _

pub wait-Uses : {A : Type 0} (r : Resource) → Uses r 0 (wait {A = A}) (λ _. 0)
wait-Uses r = record { apply = λ p. tt }

pub look_up-Uses : (r : Resource) (infos : List ProcessInfo) → Uses r 0 (look_up infos) (λ _. 0)
unfolding look_up
look_up-Uses r [] = pure-Uses r _ (omega arith)
look_up-Uses r (info ∷ infos) =
    bind-Uses r 0 (get_rate_limits_from_cgroup-Uses r info.pid) (omega arith) λ limits.
      bind-Uses r 0 (look_up-Uses r infos) (omega arith) λ rows. pure-Uses r _ (omega arith)

pub look_up-Returns : (P : Condition) (infos : List ProcessInfo) → Returns P (look_up infos)
unfolding look_up
look_up-Returns P [] = pure-Returns P _
look_up-Returns P (info ∷ infos) =
    bind-Returns P (get_rate_limits_from_cgroup-Returns P info.pid)
      λ limits. bind-Returns P (look_up-Returns P infos) λ rows. pure-Returns P _

pub print_list-Uses :
    (r : Resource) (found : Option (ProcessList × Memory))
    → Uses r (owned r found) (print_list found) (λ _. 0)
unfolding print_list
print_list-Uses r none = pure-Uses r _ (omega arith)
print_list-Uses r (some (list, (own, processes))) =
    bind-Uses r (owned r (some (list, (own, processes)))) (look_up-Uses r list.processes)
      (omega arith)
      λ rows.
        bind-Uses r 0 (destroy_process_list-Uses r own processes) (omega arith)
          λ _. pure-Uses r _ (omega arith)

pub handle_list_cmd-Uses :
    (r : Resource) (netlink : Netlink) → Uses r 0 (handle_list_cmd netlink) (λ _. 0)
unfolding handle_list_cmd
handle_list_cmd-Uses r netlink =
    bind-Uses r 0 (find_network_processes-Uses r netlink) (omega arith)
      λ found. last-Uses r 0 (print_list-Uses r found) (omega arith) (λ out. omega arith)

print_list-Returns :
    (P : Condition) (found : Option (ProcessList × Memory)) → Returns P (print_list found)
unfolding print_list
print_list-Returns P none = pure-Returns P _
print_list-Returns P (some (list, memory)) =
    bind-Returns P (look_up-Returns P list.processes)
      λ rows. bind-Returns P (destroy_process_list-Returns P memory) λ _. pure-Returns P _

pub handle_list_cmd-Returns :
    (P : Condition) (netlink : Netlink)
    → get_network_processes netlink ≢ none
    → Returns P (handle_list_cmd netlink)
unfolding handle_list_cmd
handle_list_cmd-Returns P netlink h =
    bind-Returns P (find_network_processes-Returns P netlink h) λ found. print_list-Returns P found

pub handle_clean_cmd-Uses : (r : Resource) → Uses r 0 handle_clean_cmd (λ _. 0)
unfolding handle_clean_cmd
handle_clean_cmd-Uses r =
    bind-Uses r 0 (ratelimit_cleanup_all-Uses r) (omega arith) λ code. pure-Uses r _ (omega arith)

pub handle_clean_cmd-Returns : (P : Condition) → Returns P handle_clean_cmd
unfolding handle_clean_cmd
handle_clean_cmd-Returns P =
    bind-Returns P (ratelimit_cleanup_all-Returns P) λ code. pure-Returns P _

pub after_command-Uses :
    (r : Resource) (next : M Text)
    → Uses r 0 next (λ _. 0)
    → (served : Reaction) → Uses r 0 (after_command next served) (λ _. 0)
after_command-Uses r next u (goes_on out) =
    bind-Uses r 0 u (omega arith) λ more. pure-Uses r _ (omega arith)
after_command-Uses r next u quits = pure-Uses r _ (omega arith)

pub after_command-Returns :
    (P : Condition) (next : M Text)
    → Returns P next
    → (served : Reaction) → Returns P (after_command next served)
after_command-Returns P next u (goes_on out) = bind-Returns P u λ more. pure-Returns P _
after_command-Returns P next u quits = pure-Returns P _

-- The loop reads on: of a text that is not empty, less is left.
pub fgets-length : (n c : ℕ) (input : Text) → length (fgets (suc n) (c ∷ input)).1 ≤ length input
unfolding fgets
fgets-length zero c input = ground arith
fgets-length (suc n) c [] = ground arith
fgets-length (suc n) c (d ∷ input) = ground (arith, fgets-length n d input)

pub fgets_fuel :
    (fuel c : ℕ) (input : Text)
    → length (c ∷ input) < suc fuel
    → length (fgets line_room (c ∷ input)).1 < fuel
fgets_fuel fuel c input h = omega (arith, fgets-length 62 c input)
