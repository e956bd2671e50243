-- ===== src/Completion/Examples.antt =====
-- The completion at work: two configuration files that include one another, and a known_hosts file.
use mathlib.Core.List.Memᴰ
use slush.Base.{
  true, false, Option, none, some, [], ◌∷◌, ◌++◌, ◌≡◌, refl, if◌then◌else◌, cons-ne-nil,
}
use slush.Command.{bad_host}
use slush.Completion.Matching.{
  complete_host, before, insert_sorted, sort, fitting, matches, local_hosts,
}
use slush.Completion.Offers.{
  complete_host-IsAscending, complete_host_sound, complete_host_complete, Origin, by_config,
  IsKnown,
}
use slush.Completion.Order.{IsAscending}
use slush.Completion.Origins.{named, included}
use slush.Completion.Paths.{Disk, clean}
use slush.Completion.Quoted.{host_line-quoted}
use slush.Completion.Reading.{
  each, holds, is_unusable, add_ssh_host, read_ssh_config, read_known_hosts,
}
use slush.Completion.Rules.{on}
use slush.Completion.Safe.{complete_host-bad_host}
use slush.Completion.Syntax.{
  drop_return, lines_from, kind, config_fields_from, ssh_config_fields, to_lower,
  ssh_config_directive,
}
use slush.Text.Fields.{fields, fields_from, flush, space_width}
use slush.Text.Runes.{rune_width, runes_from}
use slush.Text.{Bytes, codes, equal, cut, cut_prefix, has_prefix, split_onto, join}

abbrev home : Bytes
home = codes "/me"

abbrev config_path : Bytes
config_path = codes "/me/.ssh/config"

abbrev work_path : Bytes
work_path = codes "/me/.ssh/work"

abbrev contents_of : Bytes → Option Bytes
contents_of path =
    if equal path config_path
    then some (codes "Host lab *.org\nInclude work\n")
    else if equal path work_path
    then some (codes "Host \"bench\"\nInclude config\n")
    else if equal path (codes "/me/.ssh/known_hosts")
    then some (codes "@cert-authority [lark]:2222 ssh-ed25519 AAAA\n")
    else none

abbrev disk : Disk
disk = record {
  read_file = contents_of;
  glob = λ pattern. pattern ∷ [];
  home = some home;
  working_directory = none;
}

offered : complete_host disk [] [] (codes "me@la") ≡ codes "me@lab" ∷ codes "me@lark" ∷ []
unfolding complete_host local_hosts read_ssh_config read_known_hosts each holds is_unusable
    add_ssh_host before insert_sorted sort fitting matches drop_return lines_from kind
    config_fields_from ssh_config_fields to_lower ssh_config_directive clean fields fields_from
    flush space_width rune_width runes_from equal cut cut_prefix has_prefix split_onto join
offered = refl

all_offered : complete_host disk [] [] [] ≡ codes "bench" ∷ codes "lab" ∷ codes "lark" ∷ []
unfolding complete_host local_hosts read_ssh_config read_known_hosts each holds is_unusable
    add_ssh_host before insert_sorted sort fitting matches drop_return lines_from kind
    config_fields_from ssh_config_fields to_lower ssh_config_directive clean fields fields_from
    flush space_width rune_width runes_from equal cut cut_prefix has_prefix split_onto join
all_offered = refl

complete_host-IsAscending_example : IsAscending (complete_host disk [] [] (codes "me@la"))
complete_host-IsAscending_example = complete_host-IsAscending disk [] [] (codes "me@la")

offers_lab : holds (complete_host disk [] [] (codes "me@la")) (codes "me@lab") ≡ true
unfolding holds equal
offers_lab = rw offered refl

complete_host_sound_example :
    (host : Bytes) × (codes "me@lab" ≡ codes "me@" ++ host)
    × (has_prefix host (codes "la") ≡ true)
    × IsKnown disk home [] host
unfolding cut cut_prefix
complete_host_sound_example =
    complete_host_sound disk home [] (codes "me@la") (codes "me@lab") refl offers_lab

complete_host-bad_host_example :
    (has_prefix (codes "me@lab") (codes "me@la") ≡ true) × (bad_host (codes "me@lab") ≡ false)
unfolding bad_host has_prefix
complete_host-bad_host_example =
    complete_host-bad_host disk home [] (codes "me@la") (codes "me@lab") refl offers_lab refl

-- The host of the included file.
bench-Origin : Origin disk home [] (codes "bench") 2
unfolding clean drop_return lines_from kind config_fields_from ssh_config_fields to_lower
    ssh_config_directive flush space_width rune_width runes_from equal cut cut_prefix has_prefix
    split_onto join
bench-Origin = by_config {path = config_path} refl (
    included {pattern = codes "work"} {inner = work_path}
      (on {line = codes "Include work"} {values = codes "work" ∷ []} (Memᴰ.tail (Memᴰ.head refl))
        refl (Memᴰ.head refl))
      (Memᴰ.head refl)
      (named (
        on {line = codes "Host \"bench\""} {values = codes "bench" ∷ []} (Memᴰ.head refl) refl
          (Memᴰ.head refl))))

complete_host_complete_example : holds (complete_host disk [] [] (codes "b")) (codes "bench") ≡ true
unfolding is_unusable equal has_prefix cut cut_prefix
complete_host_complete_example =
    complete_host_complete disk home [] (codes "b") (codes "bench") refl bench-Origin refl refl

host_line-quoted_example :
    ssh_config_directive (codes "Host \"lab spaced\" \"#x\" ")
    ≡ (codes "host", codes "lab spaced" ∷ codes "#x" ∷ [])
unfolding cut_prefix
host_line-quoted_example =
    host_line-quoted (codes "lab spaced") (codes "#x" ∷ [])
      (
        (
          (refl, (refl, (refl, (refl, (refl, (refl, (refl, (refl, (refl, (refl, tt)))))))))),
          refl,
          cons-ne-nil _ _,
        ),
        (((refl, (refl, tt)), refl, cons-ne-nil _ _), tt),
      )
      refl
