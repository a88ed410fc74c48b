-- ===== src/Tests/Parsers.antt =====
-- The parsers of files and of the output of commands at concrete inputs.
use sopdet.Prelude.{
  String, List, none, some, inl, inr, ◌⊎◌, ◌≤◌, ◌≡◌, refl, true, [], ◌∷◌, All, arith, length,
}
use sopdet.Prelude.Text.{codes, same_codes, has_prefix, trim_space, contains_codes}
use sopdet.Parse.Text.{Text, Library, lines, find, split_on, join, cut_colon, put}
use sopdet.Parse.Number.{pos, atoi, hex_text, hex_bytes, hex_le_ipv4, hex_le_ipv4-hex_text}
use sopdet.Parse.Options.{is_match, until, value_of, parse_sshd_config, find-parse_sshd_config}
use sopdet.Parse.Versions.{max_dotted_version}
use sopdet.Parse.Highest.{In, IsGreatest, IsVersion, max_dotted_version-IsGreatest}
use sopdet.Parse.Jobs.{cron_lines, cron_line, cron_env_assign, parse_crontab_file}
use sopdet.Parse.Placed.{IsPlaced, IsAscending, parse_crontab_file-IsPlaced}
use sopdet.Parse.Wifi.{parse_netsh_wlan_interfaces}
use sopdet.Parse.Carriage.{IsSpread, length-parse_netsh_wlan_interfaces}
use sopdet.Parse.Software.{
  absent, failed, Found, collect_linux_software, collect_apk, collect_dpkg, collect_rpm, Yields,
  collect_linux_software-Yields,
}
use sopdet.Parse.Ports.{hex_ipv4, hex_port}

abbrev library : Library
library = record {
  to_lower = λ c. c;
  to_upper = λ c. c;
  equal_fold = same_codes;
  is_ip = λ s. true;
  is_ipv4 = λ s. true;
  show_ip = λ a b c d. a ∷ b ∷ c ∷ d ∷ [];
}

hex_le_ipv4-hex_text_example :
    hex_le_ipv4 library (hex_text (1 ∷ 1 ∷ 168 ∷ 192 ∷ [])) ≡ 192 ∷ 168 ∷ 1 ∷ 1 ∷ []
hex_le_ipv4-hex_text_example =
    hex_le_ipv4-hex_text library 192 168 1 1 (omega arith) (omega arith) (omega arith) (omega arith)

hex_le_ipv4_runs : hex_le_ipv4 library (codes "0101a8C0") ≡ 192 ∷ 168 ∷ 1 ∷ 1 ∷ []
unfolding hex_le_ipv4 hex_bytes
hex_le_ipv4_runs = refl

abbrev sshd_file : Text
sshd_file = codes "# port\nport 22\nport 2222\nMatch all\nport 1"

find-parse_sshd_config_example :
    find (codes "port") (parse_sshd_config library sshd_file)
    ≡ value_of library (codes "port") (until (is_match library) (lines sshd_file))
find-parse_sshd_config_example = find-parse_sshd_config library (codes "port") sshd_file

abbrev nine : Text
nine = codes "1.9"

abbrev ten : Text
ten = codes "1.10"

nine-IsVersion : IsVersion nine
unfolding atoi split_on
nine-IsVersion = (pos 1 ∷ pos 9 ∷ [], (refl, (refl, tt)))

ten-IsVersion : IsVersion ten
unfolding atoi split_on
ten-IsVersion = (pos 1 ∷ pos 10 ∷ [], (refl, (refl, tt)))

max_dotted_version-IsGreatest_example :
    In (max_dotted_version (nine ∷ ten ∷ [])) (nine ∷ ten ∷ [])
    × IsGreatest (max_dotted_version (nine ∷ ten ∷ [])) (nine ∷ ten ∷ [])
max_dotted_version-IsGreatest_example =
    max_dotted_version-IsGreatest nine (ten ∷ []) (nine-IsVersion, (ten-IsVersion, tt))

max_dotted_version_runs : max_dotted_version (nine ∷ ten ∷ []) ≡ ten
unfolding max_dotted_version split_on atoi
max_dotted_version_runs = refl

abbrev crontab : Text
crontab = codes "# jobs\nSHELL=/bin/sh\n\n5 4 * * 1 root run it\n@daily root sweep"

parse_crontab_file-IsPlaced_example :
    All (IsPlaced true 1 (lines crontab)) (parse_crontab_file true crontab)
    × IsAscending 1 (parse_crontab_file true crontab)
parse_crontab_file-IsPlaced_example = parse_crontab_file-IsPlaced true crontab

parse_crontab_file_runs :
    parse_crontab_file true crontab
    ≡ record {
      schedule = codes "5 4 * * 1";
      user = codes "root";
      command = codes "run it";
      line_no = 4;
    }
      ∷ record {
        schedule = codes "@daily";
        user = codes "root";
        command = codes "sweep";
        line_no = 5;
      }
      ∷ []
unfolding parse_crontab_file cron_lines split_on cron_line trim_space has_prefix cron_env_assign
    join
parse_crontab_file_runs = refl

abbrev two_adapters : Text
two_adapters = codes "Name : a\r\n\r\nName : b\r\n"

two_adapters-IsSpread : IsSpread two_adapters
two_adapters-IsSpread = (
  refl,
  (
    refl,
    (
      refl,
      (
        refl,
        (
          refl,
          (
            refl,
            (
              refl,
              (
                refl,
                (
                  refl,
                  (
                    refl,
                    (
                      refl,
                      (
                        refl,
                        (refl, (refl, (refl, (refl, (refl, (refl, (refl, (refl, (refl, tt))))))))),
                      ),
                    ),
                  ),
                ),
              ),
            ),
          ),
        ),
      ),
    ),
  ),
)

length-parse_netsh_wlan_interfaces_example :
    length (parse_netsh_wlan_interfaces library two_adapters) ≤ 1
length-parse_netsh_wlan_interfaces_example =
    length-parse_netsh_wlan_interfaces library two_adapters two_adapters-IsSpread

abbrev lines_of_status : List Text
lines_of_status =
    codes "Package: curl" ∷ codes "Status: install ok installed" ∷ codes "Version: 8.5" ∷ [] ∷ []

-- A host with dpkg and without the others.
abbrev sources : List (String × Found)
sources =
    ("dpkg", collect_dpkg (inr (lines_of_status, none)))
    ∷ ("rpm", collect_rpm (inl absent))
    ∷ ("apk", collect_apk (inl (failed "denied")))
    ∷ []

one_package : length ((collect_linux_software sources).0) ≡ 1
unfolding collect_linux_software collect_dpkg find cut_colon put same_codes trim_space
    contains_codes
one_package = refl

no_error : (collect_linux_software sources).1 ≡ []
unfolding collect_linux_software collect_dpkg find cut_colon put same_codes trim_space
    contains_codes
no_error = refl

collect_linux_software-Yields_example :
    Yields ((collect_linux_software sources).0) sources ⊎ ((collect_linux_software sources).0 ≡ [])
collect_linux_software-Yields_example = collect_linux_software-Yields sources no_error

little_endian : hex_ipv4 (λ n. n ∷ []) (codes "0100007F") ≡ 127 ∷ 46 ∷ 0 ∷ 46 ∷ 0 ∷ 46 ∷ 1 ∷ []
unfolding hex_ipv4 hex_bytes
little_endian = refl

port_22 : hex_port (codes "0016") ≡ some 22
unfolding hex_port
port_22 = refl
