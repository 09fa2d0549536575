-- ===== src/Tests/Interrupts.antt =====
-- Handlers that are set in a new interrupt table.
use whisez_os.Prelude.{◌≡◌, refl, arith, set}
use whisez_os.Prelude.Results.{ok}
use whisez_os.Arch.Idt.{
  Idt, GateDescriptor, interrupt, trap, new, gate_new, set_handler, set_user_invokable_handler,
}
use whisez_os.Arch.Idt.Guarded.{IsGuarded, here, sets, sets_user, Reach-IsGuarded}

abbrev page_fault_gate : GateDescriptor
page_fault_gate = record {
  offset_low = 0x5678;
  selector = 8;
  ist = 1;
  type_attr = 0x8E;
  offset_mid = 0x1234;
  offset_high = 0xffff_8000;
  reserved = 0;
}

abbrev breakpoint_gate : GateDescriptor
breakpoint_gate = record page_fault_gate { ist = 0; type_attr = 0xEF }

abbrev one_handler : Idt
one_handler = set new 14 page_fault_gate

page_fault_set : set_handler new 14 0xffff_8000_1234_5678 8 interrupt 1 ≡ ok one_handler
unfolding set_handler gate_new
page_fault_set = refl

breakpoint_set :
    set_user_invokable_handler one_handler 3 0xffff_8000_1234_5678 8 trap
    ≡ ok (set one_handler 3 breakpoint_gate)
unfolding set_user_invokable_handler gate_new
breakpoint_set = refl

Reach-IsGuarded_example : IsGuarded (set one_handler 3 breakpoint_gate)
Reach-IsGuarded_example = Reach-IsGuarded (
    sets_user 3 0xffff_8000_1234_5678 8 trap (omega arith)
      (sets 14 0xffff_8000_1234_5678 8 interrupt 1 (omega arith) here page_fault_set)
      breakpoint_set)
