-- ===== src/Programs/Inode/Found.antt =====
-- zns.imap on a file of F2FS, from the set-up to the report.
use zns_tools.Base.{
  ℕ, ◌+◌, ◌^◌, ◌<◌, ◌≡◌, ◌≢◌, refl, sym, ap, ◌∙◌, true, Option, some, List, trunc32, arith,
}
use zns_tools.Types.{Run, returned}
use zns_tools.Zones.{ZoneInfo, print_zone_info}
use zns_tools.Ondisk.Node.{NatEntry, nat_entry_per_block, Node, is_inode}
use zns_tools.Listings.{f2fs_show_inode_info}
use zns_tools.NodeTable.{Cursor, nat_block_address, nat_blocks, node_offset, inode_zone}
use zns_tools.NodeTable.Search.{place}
use zns_tools.NodeTable.Find.{bool_clash, find_inode-Found}
use zns_tools.Programs.{System, then_run, after}
use zns_tools.Programs.Inode.{
  Opt, InodeReport, Opened, disk_of, prepare, report_of, inode_report, first_cursor,
  search_and_report, main,
}

module _ (s : System) (table : ℕ → ℕ → NatEntry) (nodes : ℕ → Node) where
  -- The program ends with the report of an inode: of the node that a table entry of this number leads
  -- to, whose footer names itself as its inode, and whose fields are listed; no entry of the number before
  -- leads to one.
  pub record Printed (number : ℕ) (r : Option (Run InodeReport)) : Type 0 where
    pub report : InodeReport
    pub result : r ≡ some (returned report)
    pub ino : report.ino ≡ number
    pub block : ℕ
    pub index : ℕ
    pub in_block : index < nat_entry_per_block
    pub entry : (table block index).ino ≡ number
    pub is_node : is_inode (nodes (table block index).block_addr) ≡ true
    pub footer : report.footer ≡ (nodes (table block index).block_addr).footer
    pub fields : report.inode ≡ f2fs_show_inode_info (nodes (table block index).block_addr).i
    pub first :
        (b i : ℕ)
        → i < nat_entry_per_block
        → place b i < place block index
        → (table b i).ino ≡ number
        → is_inode (nodes (table b i).block_addr) ≢ true

  inode_report_returns :
      (o : Opened) (cur : Cursor) (e : NatEntry) (node : Node) (info : Option ZoneInfo)
      → print_zone_info s.kernel o.ctrl (inode_zone o.ctrl e) ≡ returned info
      → inode_report s.kernel o (cur, e, node) ≡ returned (report_of o info e node)
  unfolding inode_report
  inode_report_returns o cur e node info printed = rw printed refl

  -- Once the program is set up, where the table and the nodes can be read from the two devices, zones
  -- are reported, and the table has an entry of the file's inode number that leads to an inode, the
  -- program ends with the report of the first such inode, its fields listed: an entry for each round
  -- up to it is enough fuel.
  pub main-Printed :
      (os : List Opt) (fuel : ℕ) (o : Opened) (b i : ℕ)
      → prepare s os ≡ returned o
      → ((buffer : List ℕ) (block : ℕ)
          → (buffer' : List ℕ) × ((disk_of s o.ctrl).nat_block buffer
                (nat_block_address o.f2fs_sb block)
              ≡ some (buffer', table block)))
      → ((address : ℕ) → (disk_of s o.ctrl).node (node_offset address) ≡ some (nodes address))
      → ((zone : ℕ) → (z : Option ZoneInfo) × (print_zone_info s.kernel o.ctrl zone ≡ returned z))
      → i < nat_entry_per_block
      → (table b i).ino ≡ trunc32 (s.inode_number o.filename)
      → is_inode (nodes (table b i).block_addr) ≡ true
      → b < nat_blocks o.f2fs_sb
      → b + nat_blocks o.f2fs_sb < 2 ^ 32
      → place b i < fuel
      → Printed (trunc32 (s.inode_number o.filename)) (main s fuel os)
  unfolding main search_and_report
  main-Printed os fuel o b i prepared tables reads zones below match leads near fits enough =
      let number = trunc32 (s.inode_number o.filename) in
      let f =
        find_inode-Found (disk_of s o.ctrl) o.f2fs_sb table nodes number fuel first_cursor b i
          tables reads (omega arith) below match leads (omega arith) (omega arith) fits
          (omega arith) in
      let e = table f.block f.index in
      let (info, printed) = zones (inode_zone o.ctrl e) in
      record {
        report = report_of o info e (nodes e.block_addr);
        result =
            ap (λ (r : Run Opened). after r (search_and_report s fuel)) prepared
            ∙ ap (λ r. then_run r (inode_report s.kernel o)) f.result
            ∙ ap some (inode_report_returns o f.cursor' e (nodes e.block_addr) info printed);
        ino = f.number;
        block = f.block;
        index = f.index;
        in_block = f.in_block;
        entry = f.number;
        is_node = f.is_node;
        footer = refl;
        fields = refl;
        first = λ b' i' below' before match' yes_node.
            bool_clash (sym yes_node ∙ f.first b' i' below' (omega arith) before match');
      }
