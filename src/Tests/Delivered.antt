-- ===== src/Tests/Delivered.antt =====
-- A call of the C++ interface whose entry is on the queue, and the consumer at it.
use mini_async_log_c.Common.{◌≡◌, refl, true, some, List, [], ◌∷◌, ◌++◌, map, leb, arith}
use mini_async_log_c.Serial.Values.{ConstEntry, Value, double, strref, refdtor, type_code}
use mini_async_log_c.Serial.Encode.{image}
use mini_async_log_c.Serial.Wire.{total_compress_count}
use mini_async_log_c.Serial.RoundTrip.Entry.{written}
use mini_async_log_c.Memory.Sources.{heap}
use mini_async_log_c.Destinations.Types.{PastEntry}
use mini_async_log_c.Logger.{running, cmd_entry}
use mini_async_log_c.Logger.Consumer.{Node, Outside, Malc}
use mini_async_log_c.Validation.{success_with_refs, code, validate, validate_references}
use mini_async_log_c.Validation.Report.{static_arg_validation}
use mini_async_log_c.Validation.Delivered.{IsCalled}
use mini_async_log_c.Tests.Library.{integer_math, mpmc, ringb}
use mini_async_log_c.Tests.Logger.{build, memory}
use mini_async_log_c.Tests.EntryParser.{plain_out, no_tables, parser}
use mini_async_log_c.Tests.Consumer.{no_destinations}
use mini_async_log_c.Tests.Validation.{call_types, call_format}

abbrev pub call_values : List Value
call_values = double 5 ∷ strref 4096 2 ∷ refdtor 8192 9 ∷ []

abbrev pub call_entry : ConstEntry
call_entry = record {
  format = call_format;
  severity = 54;
  types = map type_code call_values;
  compressed_count = total_compress_count build (map type_code call_values);
}

abbrev pub calling : Outside
calling = record {
  env = record {
    static = record { const_entry = λ p. call_entry; obj_sizeof = λ p. 0 };
    now = 0;
    to_nsec = λ t. t;
    has_room = λ n. true;
  };
  format_address = λ e. e;
  expired = λ deadline now. leb deadline now;
  reached = λ a b. leb b a;
  update = λ i c. c;
  usec = λ us. us;
  list_room = λ l. true;
}

abbrev pub called_logger :
    Malc build integer_math mpmc (ringb PastEntry) plain_out no_tables calling
called_logger = record {
  state = running;
  idle_task_period_us = 0;
  idle_deadline = 10;
  mem = memory;
  tls = [];
  ds = record {
    args = [];
    refs = [];
    refdtor = record { func = 0; context = 0 };
    entry = 0;
    t = 0;
  };
  ep = parser;
  dst = no_destinations;
}

abbrev call_node : Node
call_node = record {
  address = 300;
  node = record { has_timestamp = true; cmd = cmd_entry; tag = heap; slots = 0 };
  bytes = image (written build integer_math call_entry 16384 true 300 call_values) ++ (7 ∷ []);
  tls_mem = 0;
}

pub compiles :
    static_arg_validation (validate_references call_types) (validate call_types call_format)
    ≡ some (code success_with_refs)
unfolding static_arg_validation validate validate_references
compiles = refl

is_called :
    IsCalled integer_math mpmc
      (ringb PastEntry)
      plain_out
      no_tables
      calling
      build
      16384
      300
      call_values
is_called = (
  (omega arith, ((omega arith, omega arith), ((omega arith, omega arith), tt))),
  omega arith,
  omega arith,
  refl,
  refl,
)
