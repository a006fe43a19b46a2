-- ===== src/DiskResize/Platforms.antt =====
-- internal/modules/diskresize/freebsd.go and windows.go. PowerShell and the JSON that it prints are
-- parameters.
use pfsense_agent.Base.{
  ℕ, String, ◌<>◌, code, Option, none, some, List, [], ◌∷◌, Result, ok, err, Error, wrap, pure,
  ◌==◌, str_eq, if◌then◌else◌, to_upper, trim_space,
}
use pfsense_agent.Base.Int.{pos, sub64}
use pfsense_agent.Executor.{Execution}
use pfsense_agent.DiskResize.{ResizeResult, Resizer}

-- pfSense answers without an error.
unfoldable pub freebsd_resizer : {W : Type 0} → Resizer W
freebsd_resizer = record {
  resize = λ target. pure (record {
    target = target;
    device = "";
    fstype = "";
    before_bytes = 0;
    after_bytes = 0;
    grown_bytes = pos 0;
    message = "disk resize is not yet supported on pfSense";
  });
}

-- `strings.TrimSuffix(s, ":")`
trim_colon : String → String
trim_colon String.[] = ""
trim_colon (String.◌∷◌ c s) =
    if str_eq s ""
    then (if code c == b':' then "" else String.◌∷◌ c s)
    else String.◌∷◌ c (trim_colon s)

unfoldable pub drive_letter : String → String
unfolding trim_colon trim_space to_upper
drive_letter target =
    let letter = to_upper (trim_colon (trim_space target)) in
    if str_eq letter "" then "C" else letter

-- The script, in which the letter stands as it is.
unfoldable pub resize_script : String → String
resize_script letter =
    "\n$ErrorActionPreference = \"Stop\"\n$before = (Get-Partition -DriveLetter "
    <> (letter
        <> (").Size\n$max = (Get-PartitionSupportedSize -DriveLetter "
            <> (letter
                <> (").SizeMax\nResize-Partition -DriveLetter "
                    <> (letter
                        <> (" -Size $max\n$after = (Get-Partition -DriveLetter "
                            <> (letter
                                <> ").Size\n@{ before = $before; after = $after } | ConvertTo-Json -Compress\n")))))))

-- `psResizeOutput`
pub record Sizes : Type 0 where
  pub before : ℕ
  pub after : ℕ

pub record Host (W : Type 0) : Type 0 where
  pub execute : String → List String → W → Execution × W
  pub read_sizes : String → Result Sizes

powershell : String → List String
powershell script = "-NoProfile" ∷ "-NonInteractive" ∷ "-Command" ∷ script ∷ []

module _ {W : Type 0} (host : Host W) where
  read_resized : String → String → Result Sizes → Result ResizeResult
  unfolding sub64
  read_resized letter stdout (err e) =
      err (wrap "parsing Resize-Partition output: " e (" (stdout: " <> (stdout <> ")")))
  read_resized letter stdout (ok out) = ok (record {
    target = letter;
    device = "";
    fstype = "";
    before_bytes = out.before;
    after_bytes = out.after;
    grown_bytes = sub64 out.after out.before;
    message = "resized drive " <> (letter <> ":");
  })

  after_script : String → Execution → Option Error → Result ResizeResult
  unfolding read_resized trim_space
  after_script letter run none =
      read_resized letter run.stdout (host.read_sizes (trim_space run.stdout))
  after_script letter run (some e) =
      err (wrap ("resizing partition " <> (letter <> ": ")) e (" (stderr: " <> (run.stderr <> ")")))

  unfoldable pub windows_resizer : Resizer W
  unfolding after_script drive_letter resize_script powershell
  windows_resizer = record {
    resize = λ target w.
        let letter = drive_letter target in
        let (run, w') = host.execute "powershell" (powershell (resize_script letter)) w in
        (after_script letter run run.failure, w');
  }
