-- ===== src/Config/Keys.antt =====
-- config.py: the properties of `DaemonConfig` that look at the two key files.
use phonect.Prelude.{Bool, ◌&&◌}
use phonect.Python.Io.{Io}
use phonect.Python.Disk.{Disk, exists, read_bytes}
use phonect.Bytes.{Bytes}
use phonect.Config.Load.{DaemonConfig}

abbrev pub trusted_key_pem : DaemonConfig → Io Disk Bytes
trusted_key_pem c = read_bytes c.public_key_path

abbrev pub pc_private_key_pem : DaemonConfig → Io Disk Bytes
pc_private_key_pem c = read_bytes c.private_key_path

abbrev pub has_pc_key : Disk → DaemonConfig → Bool
has_pc_key disk c = exists disk c.private_key_path

abbrev pub has_trusted_key : Disk → DaemonConfig → Bool
has_trusted_key disk c = exists disk c.public_key_path

abbrev pub mutual_auth_ready : Disk → DaemonConfig → Bool
mutual_auth_ready disk c = has_pc_key disk c && has_trusted_key disk c
